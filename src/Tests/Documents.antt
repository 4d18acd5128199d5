-- ===== src/Tests/Documents.antt =====
-- The stores of documents on a few calls.
use insightify_core.Prelude.{pos, ℕ, ◌≡◌, refl, true, some, List, [], ◌∷◌, arith}
use insightify_core.Prelude.Text.{Text, codes, text_eq, trim_space}
use insightify_core.Ui.{UiNode, UiOp, delete_node, upsert_node, UiDocument, ok}
use insightify_core.Ui.Memory.{
  MemoryStore, get_document_between, get_document, state_of, to_document, apply_ops,
  apply_ops_locked, memory_store,
}
use insightify_core.Ui.Memory.Laws.{IsApplied, apply_ops_lem, memory_store-IsLawful}
use insightify_core.Ui.Memory.Documents.{apply_calls, IsDocument, get_document_between-IsDocument}
use insightify_core.Ui.Cached.{Request, getting, applying, new_cached_store, serve_all, answer_all}
use insightify_core.Ui.Cached.Coherence.{serve_all-answer_all}

abbrev run : Text
run = codes " r1 "

abbrev node : Text → UiNode ℕ
node t = record { id = t; body = 7 }

abbrev two_nodes : List (UiOp ℕ)
two_nodes = upsert_node (some (node (codes "b"))) ∷ upsert_node (some (node (codes " a "))) ∷ []

abbrev one_bad : List (UiOp ℕ)
one_bad = delete_node (codes "b") ∷ delete_node (codes " ") ∷ []

abbrev stored : MemoryStore ℕ
stored = (apply_ops run (pos 0) two_nodes []).1

program : Unit {0}
unfolding get_document apply_ops apply_ops_locked state_of to_document text_eq trim_space
    apply_calls
program = tt

reads_sorted :
    get_document run stored
    ≡ ok (
        some (record {
          run_id = codes "r1";
          version = 1;
          nodes = node (codes "a") ∷ node (codes "b") ∷ [];
        }))
unfolding program
reads_sorted = refl

-- The operation before the one that fails has been done, and the version is the old one.
fails_halfway :
    get_document run (apply_ops run (pos 1) one_bad stored).1
    ≡ ok (some (record { run_id = codes "r1"; version = 1; nodes = node (codes "a") ∷ [] }))
unfolding program
fails_halfway = refl

conflicting :
    (apply_ops run (pos 4) one_bad stored).0
    ≡ ok (some (to_document (codes "r1") (state_of (codes "r1") stored)), true)
unfolding program
conflicting = refl

apply_ops_example :
    IsApplied
      (trim_space run)
      (pos 1)
      two_nodes
      stored
      (apply_ops run (pos 1) two_nodes stored).0
      (apply_ops run (pos 1) two_nodes stored).1
unfolding trim_space
apply_ops_example = apply_ops_lem run (pos 1) two_nodes stored refl

abbrev filled : MemoryStore ℕ
filled = apply_calls ((run, pos 0, two_nodes) ∷ []) []

abbrev without_b : List (UiOp ℕ)
without_b = delete_node (codes "b") ∷ []

abbrev emptied : MemoryStore ℕ
emptied = apply_calls ((run, pos 0, without_b) ∷ []) filled

-- The nodes are read before node "b" is deleted, and the version after it: no state of the store had both.
torn_document :
    get_document_between run filled filled emptied
    ≡ ok (
        some (record {
          run_id = trim_space run;
          version = 2;
          nodes = node (codes "a") ∷ node (codes "b") ∷ [];
        }))
unfolding get_document_between apply_calls trim_space text_eq
torn_document = refl

get_document_between_example :
    (doc : UiDocument ℕ) × (get_document_between run filled emptied emptied ≡ ok (some doc))
    × IsDocument
        (trim_space run)
        (record {
          version = (state_of (trim_space run) emptied).version;
          nodes = (state_of (trim_space run) emptied).nodes;
        })
        doc
    × (get_document run filled
        ≡ ok (some (to_document (trim_space run) (state_of (trim_space run) filled))))
unfolding apply_calls trim_space text_eq
get_document_between_example =
    get_document_between-IsDocument ((run, pos 0, two_nodes) ∷ []) ((run, pos 0, without_b) ∷ []) []
      run refl

-- Ten nanoseconds, and one entry.
abbrev requests : List (Request (memory_store ℕ))
requests =
    getting run 1 2
    ∷ applying run (pos 0) two_nodes 3
    ∷ getting run 4 4
    ∷ getting (codes "r2") 5 6
    ∷ getting run 30 31
    ∷ []

serve_all-answer_all_example :
    serve_all (memory_store ℕ) requests (new_cached_store (memory_store ℕ) [] (pos 10) (pos 1))
    ≡ answer_all (memory_store ℕ) requests []
unfolding program
serve_all-answer_all_example =
    serve_all-answer_all (memory_store ℕ) (memory_store-IsLawful ℕ) [] (pos 10) (pos 1) 0 requests (
      omega arith,
      omega arith,
      (
        omega arith,
        (λ e h. cc),
        (omega arith, omega arith, (omega arith, omega arith, (omega arith, omega arith, tt))),
      ),
    )
