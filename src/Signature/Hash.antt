-- ===== src/Signature/Hash.antt =====
-- The string hashes of Signature/Signature.cpp. A text is the list of its bytes before the closing
-- zero; a `char` is signed, so a byte from 128 on is added as its value less 256.
use Prim.Native.Nat.{bit_and, bit_xor}
use t_rdf.Base.{ℕ, suc, ◌+◌, ◌-◌, ◌*◌, ◌/◌, ◌%◌, List, [], ◌∷◌, ltb, ◌==◌, if◌then◌else◌}

abbrev pub Text : Type 0
Text = List ℕ

abbrev u32 : ℕ → ℕ
u32 n = n % 0x1_0000_0000

-- `*_str` as an `unsigned int`.
abbrev char_value : ℕ → ℕ
char_value c = if ltb c 128 then c else c + 0xffff_ff00

abbrev shl : ℕ → ℕ → ℕ
shl n k = u32 (n * k)

-- `key & 0x7FFFFFFF`
abbrev low31 : ℕ → ℕ
low31 n = n % 0x8000_0000

bkdr_loop : ℕ → Text → ℕ
bkdr_loop key [] = key
bkdr_loop key (c ∷ str) = bkdr_loop (u32 (key * 131 + char_value c)) str

unfoldable pub bkdr_hash : Text → ℕ
unfolding bkdr_loop
bkdr_hash str = low31 (bkdr_loop 0 str)

-- This one reads `unsigned char`.
simple_loop : ℕ → Text → ℕ
simple_loop key [] = key
simple_loop key (c ∷ str) = simple_loop (u32 (31 * key + c)) str

unfoldable pub simple_hash : Text → ℕ
unfolding simple_loop
simple_hash str = low31 (simple_loop 0 str)

rs_loop : (key a : ℕ) → Text → ℕ
rs_loop key a [] = key
rs_loop key a (c ∷ str) = rs_loop (u32 (key * a + char_value c)) (u32 (a * 378551)) str

unfoldable pub rs_hash : Text → ℕ
unfolding rs_loop
rs_hash str = low31 (rs_loop 0 63689 str)

js_loop : ℕ → Text → ℕ
js_loop key [] = key
js_loop key (c ∷ str) = js_loop (bit_xor key (u32 (shl key 32 + char_value c + key / 4))) str

unfoldable pub js_hash : Text → ℕ
unfolding js_loop
js_hash str = low31 (js_loop 1315423911 str)

-- The body of the loop, once the character is added: `high_bits` is 0xF0000000.
abbrev pjw_fold : ℕ → ℕ
pjw_fold key =
    let test = bit_and key 0xf000_0000 in
    if test == 0 then key else bit_and (bit_xor key (test / 0x100_0000)) 0x0fff_ffff

pjw_loop : ℕ → Text → ℕ
pjw_loop key [] = key
pjw_loop key (c ∷ str) = pjw_loop (pjw_fold (u32 (shl key 16 + char_value c))) str

unfoldable pub pjw_hash : Text → ℕ
unfolding pjw_loop
pjw_hash str = low31 (pjw_loop 0 str)

abbrev elf_fold : ℕ → ℕ
elf_fold key =
    let x = bit_and key 0xf000_0000 in
    if x == 0 then key else bit_and (bit_xor key (x / 0x100_0000)) (0xffff_ffff - x)

elf_loop : ℕ → Text → ℕ
elf_loop key [] = key
elf_loop key (c ∷ str) = elf_loop (elf_fold (u32 (shl key 16 + char_value c))) str

unfoldable pub elf_hash : Text → ℕ
unfolding elf_loop
elf_hash str = low31 (elf_loop 0 str)

sdbm_loop : ℕ → Text → ℕ
sdbm_loop key [] = key
sdbm_loop key (c ∷ str) =
    sdbm_loop (u32 (char_value c + shl key 64 + shl key 65536 + 0x1_0000_0000 - key)) str

unfoldable pub sdbm_hash : Text → ℕ
unfolding sdbm_loop
sdbm_hash str = low31 (sdbm_loop 0 str)

djb_loop : ℕ → Text → ℕ
djb_loop key [] = key
djb_loop key (c ∷ str) = djb_loop (u32 (key + shl key 32 + char_value c)) str

unfoldable pub djb_hash : Text → ℕ
unfolding djb_loop
djb_hash str = low31 (djb_loop 5381 str)

-- One round of `APHash`; `i` counts the characters.
abbrev ap_round : (i key c : ℕ) → ℕ
ap_round i key c =
    let even = bit_xor (bit_xor (shl key 128) (char_value c)) (key / 8) in
    let odd = bit_xor (bit_xor (shl key 2048) (char_value c)) (key / 32) in
    if i % 2 == 0 then bit_xor key even else bit_xor key (0xffff_ffff - odd)

ap_loop : (i key : ℕ) → Text → ℕ
ap_loop i key [] = key
ap_loop i key (c ∷ str) = ap_loop (suc i) (ap_round i key c) str

unfoldable pub ap_hash : Text → ℕ
unfolding ap_loop
ap_hash str = low31 (ap_loop 0 0 str)
