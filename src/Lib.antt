-- ===== src/Lib.antt =====
-- T-RDF, an RDF store that answers SPARQL queries over signatures and id lists.
--
-- The parts of the program that are modelled, and how they meet. A triple of the data is given
-- ids (KVstore) and is encoded into the signatures of its entities (Signature, Database); the
-- signatures are searched for those that cover the signature of a query variable (Query), which
-- gives each variable a list of candidate ids (IDList); lists of ids from the six indexes of the
-- store (KVstore) are intersected with it, and searched (util). The results of the parts of a
-- query, rows of ids, are combined and filtered by the plan of its pattern group (Database).
--
--   Base        what the other files share: the library's names, arithmetic tests, lists over
--               the native numbers, integers, array reads, ascending lists
--   Util        util/util.cpp: bsearch_int_uporder, bsearch_preid_uporder, bsearch_vec_uporder
--   IdList      Query/IDList.cpp: getID, addID, isExistID, operator[], intersectList, unionList,
--               erase
--   KvStore     KVstore/KVstore.cpp: insert_x, insert_xy, remove_x, remove_xy,
--               updateTupleslist_insert, updateTupleslist_remove (KvStore/Lists, KvStore/Update);
--               KVstore/HashMap.h: IntVec, IVMap, IIVMap (KvStore/Memory, KvStore/Maps)
--   Signature   Signature/Signature.cpp: the hashes and encodings (Signature/Hash,
--               Signature/Encode); Signature/SigEntry.cpp: the covering test (Signature/Cover)
--   Query       Query/BasicQuery.cpp: updateSubSig, updateObjSig and the loop over the triples
--               of encodeBasicQuery; Triple/Triple.cpp: a triple read from a line, and printed
--               (Query/Line)
--   VsTree      VSTree/VNode.cpp: nodes of the signature tree, and what a search collects there
--               (VsTree/Node); VSTree/VSTree.cpp: recursive_deserialize, dfs, retrieveEntity_IM
--               (VsTree/Tree)
--   NodeCache   VSTree/LRUCache.cpp: the cache between the nodes of the tree and their file
--               (NodeCache/Defs); its linked list (NodeCache/Links), the used places and their
--               invariant (Slots, Elem, Refresh), the cache as a memory (Store, Swapping, Memory,
--               Client, Calls), and offsets that an `int` cannot hold (Overflow)
--   Filter      Database/Database.cpp: calculateEntityBitSet, encodeTriple2SubEntityBitSet,
--               encodeTriple2ObjEntityBitSet; the query's encoding against the data's, and the
--               candidates that the search of the tree leaves
--   Answers     Database/Database.cpp: mapVarVec, mergeJoin, mergeLeftOuterJoin, mergeUnion,
--               doFilter, matchFilter, on results of parts of a query; Query/BasicQuery.cpp:
--               dupRemoval_invalidRemoval (Answers/Duplicates). Answers/Texts has the comparisons
--               of texts, Answers/Kept the rows that a filter keeps
--   Dictionary  Database/Database.cpp: the ids that sub2id_pre2id_obj2id_RDFintoSignature gives to
--               the names of a file of triples; KVstore/HashMap.h: SIMap, SArray
--               (Dictionary/Names); that a name and its id lead to each other
--               (Dictionary/Consistent), for the names of a triple (Triples) and of a file (Decoding)
--   Loading     Database/Database.cpp: _spo_cmp, _ops_cmp, _pso_cmp, _pos_cmp (Loading/Compare) and
--               s2o_sp2o_s2po, o2s_op2s_o2ps (Loading/Building), p2s_p2o (Loading/Predicates). The arrays of the loop are
--               described in Loading/Opening, its rounds in Loading/Storing and Loading/Rounds, and
--               the groups that it gathers in Loading/Groups and Loading/Runs; the lists of the
--               predicates in Loading/PreLists and Loading/Rising, their places in a file in
--               Loading/Places, Loading/Turns and Loading/ByPredicate
--   Plan        Database/Database.cpp: genEvaPlan (Plan/Generate) and doEvaPlan (Plan/Machine); what
--               a pattern group means is described in Plan/Meaning
--   DfsJoin     Database/Database.cpp: generateBN (DfsJoin/Backward), whose rows are described in
--               DfsJoin/Rows and DfsJoin/Built, and dfs, the recursive join that
--               join_basic_dfs_style calls (DfsJoin/Search); Query/BasicQuery.cpp:
--               getVarID_FirstProcessWhenJoin (DfsJoin/Choice). DfsJoin/Answers describes the
--               answers of a search, DfsJoin/Linked the ids of a depth, and DfsJoin/Found the
--               results that the search leaves in the array that its calls share
--   Examples    runs of the models, and the theorems at concrete inputs
--
-- How code is rendered. A function of the program is a function by clauses under its name in snake
-- case; a pointer argument with a length is a list, and the null pointer `none`. Reads outside an
-- array, `new` and `delete[]` that go wrong, failed assertions, overflowing `int` products and
-- `bitset::set` outside the set end a run with a value of their own, so a theorem that a run
-- returns says that none of them happens. Ids are natural numbers, since the lists only compare
-- them; an `int` that can be -1 is of ℤ. Lists have fewer than 2 ^ 31 elements, so that indexes do
-- not overflow. Addresses are numbers, 0 is null, and `new` gives one never used before; a double
-- `delete[]` is a fault. A text is the list of its bytes, a `char` is signed, and hashes are
-- computed in 32 bits. The arrays of a query, of the rows of generateBN and of a tree
-- node are functions of their indexes or lists, and a write behind their end is a fault. The joins get an
-- empty result to fill, as their caller passes it. Loops recurse on the list they walk. The binary
-- search runs on fuel, one more round than there are keys: every round shortens the interval, so
-- the fuel is enough. The search of the tree takes a node off its queue in every round and never
-- meets one twice, so as many rounds as there are nodes are enough; the recursion that reads the
-- tree needs one more than its height. The inner loop of `intersectList` counts the elements that
-- are left. Sizes of texts are 64-bit numbers that wrap, and pass through an `int` where the code
-- keeps them in one.
--
-- The file of the node cache is read and written by the system library: a parameter. It is seen as
-- the nodes that were last written at its offsets, and theorems take that a write at a line changes
-- the node there and no other. Where no node was written, whether the file ends before or was filled
-- up when a later line was written, what `fread` leaves is a further parameter, of which nothing is
-- taken; theorems on what is read ask only for lines that the file had or that were set. The file
-- opens, and `fseek` fails just before its start. The arrays of the cache are functions of their
-- places.
--
-- `dfs` recurses on the number of variables without a value.
-- The indexes of the store that it reads are functions.
--
-- Not modelled. Code outside the repository (the C++ library, sockets, files, MPI, the parsers'
-- run time) and the generated SPARQL parser. Outside Dictionary, the dictionaries of
-- the store between texts and ids are parameters, as functions; in Dictionary, ids are numbers
-- without a bound. The printing of a log is left out of every function. Further
-- parts of the program that are left out are insertion into the signature tree
-- (VSTree/VSTree.cpp), the counts of ids that two predicates share (the end of
-- p2s_p2o in Database/Database.cpp), and the joins of tasks in app_rdf/app_rdf.h: `compute` there
-- calls dfs_iterative_style_HW, with vector instructions, over the overload of generateBN with
-- pre_var_num. The task scheduler (system/) and the vectorised intersections (intersection/) are
-- copies of other projects' code.
pub mod Base
pub mod Util
pub mod IdList
pub mod KvStore
pub mod Signature
pub mod Query
pub mod VsTree
pub mod NodeCache
pub mod Dictionary
pub mod Filter
pub mod Answers
pub mod Loading
pub mod Plan
pub mod DfsJoin
mod Examples
