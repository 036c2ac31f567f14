-- ===== src/Subset/Tests.antt =====
-- A small database: one user, and one order that the user refers to.
use leafmask.Prelude.{
  Text, codes, text_eq, text_eq_iff, true, some, List, [], ◌∷◌, ◌≡◌, refl, sym, ◌∙◌, ◌⊎◌, ◌↔◌, inl,
  inr, In, Bool-cases, if◌then◌else◌,
}
use leafmask.Prelude.Int.{pos}
use leafmask.Prelude.Result.{Result, ok}
use leafmask.Bson.{Document, int64, end, field}
use leafmask.Bson.Sample.{sample_bson}
use leafmask.Reference.{VirtualReference, fixed, references_from, resolve_target, resolve_in}
use leafmask.Subset.Search.{seeded, referenced}
use leafmask.Subset.Worklist.{Traversal, admit_all, walk}
use leafmask.Subset.Engine.{
  DocumentSource, Node, SubsetEngine, key, doc_id, seed_all, follow, follow_edges, follow_edge,
  traverse, compute, group, push_to,
}
use leafmask.Subset.Correct.{Required}
use leafmask.Subset.Exact.{Distinct}
use leafmask.Subset.Grouped.{Holds, compute-exact}
use leafmask.Subset.Ends.{Bounded, traverse-ends}
use leafmask.FieldPath.{get_path, get_parts, descend}

abbrev user : Document
user = field (codes "_id") (int64 (pos 1)) (field (codes "order") (int64 (pos 2)) end)

abbrev order : Document
order = field (codes "_id") (int64 (pos 2)) end

abbrev only : Text → Document → Text → Result (List Document)
only name doc c = if text_eq c name then ok (doc ∷ []) else ok []

abbrev shop : DocumentSource
shop = record {
  seed = λ c cond. only (codes "users") user c;
  find_by = λ c f v. only (codes "orders") order c;
}

abbrev user_order : VirtualReference
user_order = record {
  from_collection = codes "users";
  from_field = codes "order";
  to_field = codes "_id";
  not_null = true;
  target = fixed (codes "orders");
}

abbrev shop_engine : SubsetEngine
shop_engine = record {
  graph = record { edges = user_order ∷ [] };
  conds = (codes "users", record { expr = codes "order > 1" }) ∷ [];
}

abbrev shop_subset : List (Text × List Document)
shop_subset = (codes "users", user ∷ []) ∷ (codes "orders", order ∷ []) ∷ []

compute-shop : compute shop shop_engine 3 ≡ some (ok shop_subset)
unfolding compute traverse seed_all follow follow_edges follow_edge admit_all walk key doc_id group
    push_to references_from resolve_target resolve_in get_path get_parts descend
compute-shop = refl

only-In :
    (name : Text) (doc : Document) (c : Text) (docs : List Document) (d : Document)
    → only name doc c ≡ ok docs
    → In d docs
    → (c ≡ name) × (d ≡ doc)
only-In name doc c docs d e i = elim (Bool-cases (text_eq c name)) [
  | inl t ↦
      let same : doc ∷ [] ≡ docs = let found : ok (doc ∷ []) ≡ ok docs = rw t at e in cc in
      elim (rw (← same) at i) [
        | inl here ↦ ((text_eq_iff c name).0 t, here)
        | inr nothing ↦ absurd nothing
      ]
  | inr f ↦
      let same : [] ≡ docs = let found : ok [] ≡ ok docs = rw f at e in cc in
      absurd (rw (← same) at i)
]

-- Only the user and the order are required.
shop-Required :
    (n : Node)
    → Required shop shop_engine n
    → (n ≡ (codes "users", user)) ⊎ (n ≡ (codes "orders", order))
shop-Required n (seeded (cond, i, (docs, read, member))) =
    let (c, d) = only-In (codes "users") user n.0 docs n.1 read member in inl (pair n c d)
  where
    pair : (n : Node) {c : Text} {d : Document} → n.0 ≡ c → n.1 ≡ d → n ≡ (c, d)
    pair (a, b) e f = rw (e, f)
shop-Required n (referenced r (edge, i, (v, docs, _, _, read, member))) =
    let (c, d) = only-In (codes "orders") order n.0 docs n.1 read member in inr (pair n c d)
  where
    pair : (n : Node) {c : Text} {d : Document} → n.0 ≡ c → n.1 ≡ d → n ≡ (c, d)
    pair (a, b) e f = rw (e, f)

shop-Distinct : Distinct shop shop_engine
unfolding key doc_id
shop-Distinct n m r q e = elim (shop-Required n r) [
  | inl a ↦ elim (shop-Required m q) [ inl b ↦ a ∙ sym b | inr b ↦ cc (rw (a, b) at e) ]
  | inr a ↦ elim (shop-Required m q) [ inl b ↦ cc (rw (a, b) at e) | inr b ↦ a ∙ sym b ]
]

compute-exact_example :
    Holds shop_subset (codes "orders") order ↔ Required shop shop_engine (codes "orders", order)
compute-exact_example =
    compute-exact shop shop_engine 3 shop_subset shop-Distinct compute-shop (codes "orders") order

abbrev shop_keys : List Text
shop_keys = codes "users:1" ∷ codes "orders:2" ∷ []

shop-Bounded : Bounded shop shop_engine shop_keys
unfolding key doc_id
shop-Bounded = record {
  seeds = λ c cond docs read d i.
      let (e, f) = only-In (codes "users") user c docs d read i in rw (e, f) (inl refl);
  reads = λ c f v docs read d i.
      let (e, g) = only-In (codes "orders") order c docs d read i in rw (e, g) (inr (inl refl));
}

traverse-ends_example : (r : Result (Traversal Node)) × (traverse shop shop_engine 2 ≡ some r)
traverse-ends_example = traverse-ends shop shop_engine shop_keys shop-Bounded
