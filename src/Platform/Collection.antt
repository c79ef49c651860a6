-- ===== src/Platform/Collection.antt =====
-- internal/platform/persistence/mongo.go: the collection of ledger entries as the MongoDB driver
-- gives it. The driver is a parameter of the model; `M` is the state behind it.
use innoscripta_banking_ledg.Base.{
  ℕ, ℤ, pos, pos_part, ◌<◌, ◌≡◌, Bool, true, Option, none, some, List, ◌∷◌, [], ◌++◌, count, find?,
  update_first,
}
use innoscripta_banking_ledg.Domain.Ledger.{Entry}
use innoscripta_banking_ledg.Platform.Reply.{Reply, done, fault, Found, Wrote, Affected, Batch}

pub record Collection (M : Type 0) : Type 0 where
  -- `done none` is `mongo.ErrNoDocuments`
  pub find_one : (Entry → Bool) → M → Reply (Option Entry) × M
  pub insert_one : Entry → M → Reply (Unit {0}) × M
  -- the number is `MatchedCount`
  pub update_one : (Entry → Bool) → (Entry → Entry) → M → Reply ℕ × M
  -- sorted by `created_at` in descending order; the skip and the limit of the options
  pub find : (Entry → Bool) → ℤ → ℤ → M → Reply (List Entry) × M
  pub count_documents : (Entry → Bool) → M → Reply ℤ × M

-- No constraint: the repository creates no unique index.
abbrev pub any_documents : List Entry → Bool
any_documents _ = true

-- `UpdateOne` matches one document or none.
abbrev pub matched : Option Entry → ℕ
matched none = 0
matched (some _) = 1

abbrev pub Counted : ℕ → Reply ℤ → Type 0
Counted n (done k) = k ≡ pos n
Counted n fault = Unit

-- The documented effect of each call on the documents.
pub record Calls {M : Type 0} (c : Collection M) (entries : M → List Entry) : Type 0 where
  pub find_one_finds : (p : Entry → Bool) (m : M) → Found p (entries m) (c.find_one p m).0
  pub find_one_keeps : (p : Entry → Bool) (m : M) → entries (c.find_one p m).1 ≡ entries m
  pub insert_one_writes :
      (e : Entry) (m : M)
      → Wrote any_documents
          (entries m)
          (entries m ++ e ∷ [])
          (c.insert_one e m).0
          (entries (c.insert_one e m).1)
  pub update_one_writes :
      (p : Entry → Bool) (f : Entry → Entry) (m : M)
      → Wrote any_documents
          (entries m)
          (update_first p f (entries m))
          (c.update_one p f m).0
          (entries (c.update_one p f m).1)
  pub update_one_counts :
      (p : Entry → Bool) (f : Entry → Entry) (m : M)
      → Affected (matched (find? p (entries m))) (c.update_one p f m).0
  pub find_finds :
      (p : Entry → Bool) (skip limit : ℤ) (m : M)
      → 0 < pos_part limit
      → Batch p limit (entries m) (c.find p skip limit m).0
  pub find_keeps :
      (p : Entry → Bool) (skip limit : ℤ) (m : M) → entries (c.find p skip limit m).1 ≡ entries m
  pub count_documents_counts :
      (p : Entry → Bool) (m : M) → Counted (count p (entries m)) (c.count_documents p m).0
  pub count_documents_keeps :
      (p : Entry → Bool) (m : M) → entries (c.count_documents p m).1 ≡ entries m

-- The documents that the collection holds, in natural order.
pub record IsCollection {M : Type 0} (c : Collection M) : Type 0 where
  pub entries : M → List Entry
  pub calls : Calls c entries
  pub open calls use *
