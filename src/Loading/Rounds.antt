-- ===== src/Loading/Rounds.antt =====
-- One round of the loop of `s2o_sp2o_s2po` in Database/Database.cpp.
use t_rdf.Base.{
  ℕ, ◌<◌, ◌≡◌, refl, sym, ap, ◌∙◌, Bool, true, false, List, [], ◌∷◌, ◌++◌, append-nil, map, Option,
  none, some, if◌then◌else◌, length,
}
use t_rdf.Base.Run.{done, ◌>>=◌}
use t_rdf.Query.Basic.{put, put2}
use t_rdf.Loading.Compare.{IdTuple}
use t_rdf.Loading.Building.{Indexes, Lists, new_arrays, store_pair, store_sub, build_step}
use t_rdf.Loading.Groups.{emit, ends}
use t_rdf.Loading.Opening.{is_nil, pairs, Opened, add_triple-Opened}
use t_rdf.Loading.Storing.{
  in_group, has_sub, has_pair, same_sub, same_pair, left_over, changes-ends, changes_either-ends,
  ends_pair, Gathers, new_arrays-Opened, store_pair_lem, is_nil-snoc, put-emit, put2-emit,
}

module _ (sub pre obj : IdTuple → ℕ) where
  module _ (sort : List ℕ → List ℕ) where
    flagged-Opened :
        (a : Lists) (acc before run : List IdTuple) (over pair_over : Bool)
        → Opened sub pre obj a acc before run
        → Opened sub pre obj
            (record a { sub_change = over; sub_pre_change = pair_over })
            acc
            before
            run
    flagged-Opened a acc before run over pair_over o = record {
      split = o.split;
      oids = o.oids;
      pids = o.pids;
      size = o.size;
      pid_size = o.pid_size;
      room = o.room;
      start = o.start;
      len = o.len;
    }

    abbrev after_pair : Lists → Bool → List IdTuple → IdTuple → Lists
    after_pair a over run t = record a {
      sub_change = over;
      sub_pre_change = true;
      indexes = record a.indexes {
        sp2o = put2 a.indexes.sp2o (sub t) (pre t) (some (map obj run));
      };
      oidlist_sp = none;
      oidlist_sp_len = 0;
    }

    -- The end of a round, once the triple stands in the arrays.
    finish-Gathers :
        (t : IdTuple) (a : Lists) (acc before run : List IdTuple) (subs : ℕ → Option (List IdTuple))
        (both : ℕ × ℕ → Option (List IdTuple)) (over pair_over : Bool)
        → (over ≡ true → pair_over ≡ true)
        → Opened sub pre obj a acc before run
        → is_nil acc ≡ false
        → is_nil run ≡ false
        → ((s : ℕ) → a.indexes.s2o s ≡ in_group (λ g. sort (map obj g)) (subs s))
        → ((s : ℕ) → a.indexes.s2po s ≡ in_group (pairs pre obj) (subs s))
        → ((s p : ℕ) → a.indexes.sp2o s p ≡ in_group (map obj) (both (s, p)))
        → (d : Lists) × (before' : List IdTuple) × ((store_pair sort sub pre obj t
                (record a { sub_change = over; sub_pre_change = pair_over })
              >>= λ s. done (store_sub sort sub pre obj t s))
            ≡ done d)
          × Gathers sub pre obj sort d
              (left_over over acc)
              before'
              (left_over pair_over run)
              (if over then emit (has_sub sub) (same_sub sub) t acc subs else subs)
              (if pair_over then emit (has_pair sub pre) (same_pair sub pre) t run both else both)
    unfolding store_sub
    finish-Gathers t a acc before run subs both true false h o na nr f1 f2 f3 = cc (h refl)
    finish-Gathers t a acc before run subs both false false h o na nr f1 f2 f3 = (
      record a { sub_change = false; sub_pre_change = false },
      before,
      (let kept : store_pair sort sub pre obj t
                (record a { sub_change = false; sub_pre_change = false })
              ≡ done (record a { sub_change = false; sub_pre_change = false }) =
            unfold store_pair in refl in
          rw kept refl),
      record {
        sub_flag = sym na;
        pre_flag = sym nr;
        split = o.split;
        opened = λ n. flagged-Opened a acc before run false false o;
        s2o = f1;
        s2po = f2;
        sp2o = f3;
      },
    )
    finish-Gathers t a acc before run subs both false true h o na nr f1 f2 f3 = (
      after_pair a false run t,
      acc,
      rw
          (store_pair_lem sub pre obj sort t
            (record a { sub_change = false; sub_pre_change = true }) acc before run
            (flagged-Opened a acc before run false true o) nr refl)
          refl,
      record {
        sub_flag = sym na;
        pre_flag = refl;
        split = sym (append-nil acc);
        opened = λ n. record {
          split = sym (append-nil acc);
          oids = o.oids;
          pids = o.pids;
          size = o.size;
          pid_size = o.pid_size;
          room = o.room;
          start = λ e. cc (e);
          len = refl;
        };
        s2o = f1;
        s2po = f2;
        sp2o = put2-emit sub pre obj sort (map obj) a.indexes.sp2o both t run f3;
      },
    )
    finish-Gathers t a acc before run subs both true true h o na nr f1 f2 f3 = (
      record (after_pair a true run t) {
        indexes = record {
          s2o = put a.indexes.s2o (sub t) (some (sort a.oidlist_s));
          sp2o = put2 a.indexes.sp2o (sub t) (pre t) (some (map obj run));
          s2po = put a.indexes.s2po (sub t) (some a.pidoidlist_s);
        };
        oidlist_s = [];
        oidlist_sp = none;
        pidoidlist_s = [];
      },
      [],
      rw
          (store_pair_lem sub pre obj sort t (record a { sub_change = true; sub_pre_change = true })
            acc before run (flagged-Opened a acc before run true true o) nr refl)
          refl,
      record {
        sub_flag = refl;
        pre_flag = refl;
        split = refl;
        opened = λ n. cc (n);
        s2o = λ s.
            ap (λ xs. put a.indexes.s2o (sub t) (some (sort xs)) s) o.oids
            ∙ put-emit sub pre obj sort (λ g. sort (map obj g)) a.indexes.s2o subs t acc f1 s;
        s2po = λ s.
            ap (λ xs. put a.indexes.s2po (sub t) (some xs) s) o.pids
            ∙ put-emit sub pre obj sort (pairs pre obj) a.indexes.s2po subs t acc f2 s;
        sp2o = put2-emit sub pre obj sort (map obj) a.indexes.sp2o both t run f3;
      },
    )

    -- A round with the triple `t` before `rest`.
    pub build_step-Gathers :
        (t : IdTuple) (rest : List IdTuple) (c : Lists) (acc before run : List IdTuple)
        (subs : ℕ → Option (List IdTuple)) (both : ℕ × ℕ → Option (List IdTuple))
        → length acc < 1000000000
        → Gathers sub pre obj sort c acc before run subs both
        → (d : Lists) × (before' : List IdTuple) × (build_step sort sub pre obj t rest c ≡ done d)
          × Gathers sub pre obj sort d
              (left_over (ends (has_sub sub) (same_sub sub) t rest) (acc ++ t ∷ []))
              before'
              (left_over (ends (has_pair sub pre) (same_pair sub pre) t rest) (run ++ t ∷ []))
              (if ends (has_sub sub) (same_sub sub) t rest
                then emit (has_sub sub) (same_sub sub) t (acc ++ t ∷ []) subs
                else subs)
              (if ends (has_pair sub pre) (same_pair sub pre) t rest
                then emit (has_pair sub pre) (same_pair sub pre) t (run ++ t ∷ []) both
                else both)
    unfolding build_step
    build_step-Gathers t rest c acc before run subs both lt g =
        let (o, flag, same) = new_arrays-Opened sub pre obj sort c acc before run subs both g in
        let (a, added, o', idx) =
          add_triple-Opened sub pre obj sort t (new_arrays c) acc before run lt flag o in
        rw added (
          rw (changes_either-ends sub pre obj t rest, changes-ends sub pre obj t rest)
            (finish-Gathers t a (acc ++ t ∷ []) before (run ++ t ∷ []) subs both
              (ends (has_sub sub) (same_sub sub) t rest)
              (ends (has_pair sub pre) (same_pair sub pre) t rest) (ends_pair sub pre obj t rest) o'
              (is_nil-snoc sub pre obj sort acc t) (is_nil-snoc sub pre obj sort run t)
              (λ s. ap (λ (i : Indexes). i.s2o s) (idx ∙ same) ∙ g.s2o s)
              (λ s. ap (λ (i : Indexes). i.s2po s) (idx ∙ same) ∙ g.s2po s)
              (λ s p. ap (λ (i : Indexes). i.sp2o s p) (idx ∙ same) ∙ g.sp2o s p)))
