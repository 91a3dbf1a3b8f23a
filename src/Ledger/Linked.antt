-- ===== src/Ledger/Linked.antt =====
-- Which chains `verifySingleChain` accepts.
use mathlib.Core.List.{append_assoc}
use mathlib.Core.Path.{subst}
use ticketing_app.Prelude.{
  ℕ, zero, suc, ◌≤◌, ◌≡◌, ◌≢◌, refl, sym, ap, ◌∙◌, String, true, false, Option, none, some, List,
  [], ◌∷◌, ◌++◌, select, take, length, length-append, length-take, str_eq, eq_iff, ==_refl, arith,
  All, All-take, inl, inr, Bool-cases,
}
use ticketing_app.Ledger.Chain.{
  VerifiableRow, valid, same_hash, is_root, is_none_hash, by_prev, finish, walk,
  verify_single_chain,
}

-- No two entries have one hash.
abbrev pub HashesDiffer : List VerifiableRow → Type 0
HashesDiffer [] = Unit
HashesDiffer (e ∷ es) =
    All (λ (f : VerifiableRow). f.entry_hash ≢ e.entry_hash) es × HashesDiffer es

str_eq_refl : (s : String) → str_eq s s ≡ true
str_eq_refl s = (eq_iff s s).1 refl

str_eq_differ : (s t : String) → s ≢ t → str_eq s t ≡ false
str_eq_differ s t ne = elim (Bool-cases (str_eq s t)) [
  | inl e ↦ absurd (ne ((eq_iff s t).0 e))
  | inr e ↦ e
]

by_prev-hit :
    (h : String) (e : VerifiableRow) (es : List VerifiableRow)
    → same_hash h e.prev_hash ≡ true
    → by_prev (e ∷ es) h ≡ e ∷ by_prev es h
unfolding by_prev
by_prev-hit h e es y = rw y refl

by_prev-other :
    (h : String) (e : VerifiableRow) (es : List VerifiableRow)
    → same_hash h e.prev_hash ≡ false
    → by_prev (e ∷ es) h ≡ by_prev es h
unfolding by_prev
by_prev-other h e es n = rw n refl

All-middle :
    (P : VerifiableRow → Type 0) (xs : List VerifiableRow) (y : VerifiableRow)
    (zs : List VerifiableRow)
    → All P (xs ++ y ∷ zs)
    → P y
All-middle P [] y zs h = h.0
All-middle P (x ∷ xs) y zs h = All-middle P xs y zs h.1

rooted :
    (e : VerifiableRow) (es : List VerifiableRow)
    → e.prev_hash ≡ none
    → select is_root es ≡ []
    → select is_root (e ∷ es) ≡ e ∷ []
rooted e es h n = let first : is_root e ≡ true = ap is_none_hash h in rw (first, n) refl

HashesDiffer-take : (n : ℕ) (es : List VerifiableRow) → HashesDiffer es → HashesDiffer (take n es)
HashesDiffer-take zero es h = tt
HashesDiffer-take (suc n) [] h = tt
HashesDiffer-take (suc n) (e ∷ es) h = (
  All-take (λ (f : VerifiableRow). f.entry_hash ≢ e.entry_hash) n es h.0,
  HashesDiffer-take n es h.1,
)

module _ (sha256 : String → String) where
  -- Each entry's hash is that of its content, and its predecessor is the entry before it.
  abbrev pub Linked : Option String → List VerifiableRow → Type 0
  Linked prev [] = Unit
  Linked prev (e ∷ es) =
      (e.prev_hash ≡ prev) × (sha256 e.preimage ≡ e.entry_hash) × Linked (some e.entry_hash) es

  hash_ok :
      (prev : Option String) (before : List VerifiableRow) (cur : VerifiableRow)
      (rest : List VerifiableRow)
      → Linked prev (before ++ cur ∷ rest)
      → str_eq (sha256 cur.preimage) cur.entry_hash ≡ true
  hash_ok prev [] cur rest l = (eq_iff _ _).1 l.1
  hash_ok prev (b ∷ bs) cur rest l = hash_ok (some b.entry_hash) bs cur rest l.2

  no_more_roots :
      (h : String) (es : List VerifiableRow) → Linked (some h) es → select is_root es ≡ []
  no_more_roots h [] l = refl
  no_more_roots h (e ∷ es) l = rw l.0 (no_more_roots e.entry_hash es l.2)

  -- Nobody follows a hash that no entry before them has.
  no_successor :
      (h : String) (prev : Option String) (es : List VerifiableRow)
      → Linked prev es
      → same_hash h prev ≡ false
      → All (λ (f : VerifiableRow). f.entry_hash ≢ h) es
      → by_prev es h ≡ []
  unfolding by_prev
  no_successor h prev [] l n d = refl
  no_successor h prev (e ∷ es) l n d =
      rw (l.0, n) (no_successor h (some e.entry_hash) es l.2 (str_eq_differ e.entry_hash h d.0) d.1)

  -- An entry is followed by the next one alone.
  successors :
      (prev : Option String) (before : List VerifiableRow) (cur : VerifiableRow)
      (rest : List VerifiableRow)
      → Linked prev (before ++ cur ∷ rest)
      → same_hash cur.entry_hash prev ≡ false
      → HashesDiffer (before ++ cur ∷ rest)
      → by_prev (before ++ cur ∷ rest) cur.entry_hash ≡ take 1 rest
  unfolding by_prev
  successors prev [] cur [] l n d =
      by_prev-other cur.entry_hash cur [] (ap (same_hash cur.entry_hash) l.0 ∙ n)
  successors prev [] cur (x ∷ xs) l n d =
      let none_after =
        no_successor cur.entry_hash (some x.entry_hash) xs l.2.2
          (str_eq_differ x.entry_hash cur.entry_hash d.0.0) d.0.1 in
      by_prev-other cur.entry_hash cur (x ∷ xs) (ap (same_hash cur.entry_hash) l.0 ∙ n)
      ∙ by_prev-hit cur.entry_hash x xs
          (ap (same_hash cur.entry_hash) l.2.0 ∙ str_eq_refl cur.entry_hash)
      ∙ ap (λ (r : List VerifiableRow). x ∷ r) none_after
  successors prev (b ∷ bs) cur rest l n d =
      let differs : cur.entry_hash ≢ b.entry_hash =
        All-middle (λ (f : VerifiableRow). f.entry_hash ≢ b.entry_hash) bs cur rest d.0 in
      by_prev-other cur.entry_hash b (bs ++ cur ∷ rest) (ap (same_hash cur.entry_hash) l.0 ∙ n)
      ∙ successors (some b.entry_hash) bs cur rest l.2
          (str_eq_differ b.entry_hash cur.entry_hash (λ e. differs (sym e))) d.1

  finish_all : (n : ℕ) → finish n n ≡ valid n
  unfolding finish
  finish_all n = rw (==_refl n) refl

  -- From an entry of a chain on, the walk goes to the end.
  walk_on :
      (entries before : List VerifiableRow) (cur : VerifiableRow) (rest : List VerifiableRow)
      → entries ≡ before ++ cur ∷ rest
      → Linked none entries
      → HashesDiffer entries
      → walk sha256 entries (suc (length rest)) (length before) cur ≡ valid (length entries)
  unfolding walk
  walk_on entries before cur [] e l d =
      let l' = subst (Linked none) e l in
      let d' = subst HashesDiffer e d in
      let next : by_prev entries cur.entry_hash ≡ [] =
        ap (λ es. by_prev es cur.entry_hash) e ∙ successors none before cur [] l' refl d' in
      let count : suc (length before) ≡ length entries =
        omega (arith, ap length e, length-append before (cur ∷ [])) in
      rw (hash_ok none before cur [] l', next, count) (finish_all (length entries))
  walk_on entries before cur (x ∷ xs) e l d =
      let l' = subst (Linked none) e l in
      let d' = subst HashesDiffer e d in
      let next : by_prev entries cur.entry_hash ≡ x ∷ [] =
        ap (λ es. by_prev es cur.entry_hash) e ∙ successors none before cur (x ∷ xs) l' refl d' in
      let on =
        walk_on entries (before ++ cur ∷ []) x xs
          (e ∙ sym (append_assoc before (cur ∷ []) (x ∷ xs))) l d in
      let grown : length (before ++ cur ∷ []) ≡ suc (length before) =
        omega (arith, length-append before (cur ∷ [])) in
      rw (hash_ok none before cur (x ∷ xs) l', next)
        (subst (λ n. walk sha256 entries (suc (length xs)) n x ≡ valid (length entries)) grown on)

  -- A chain of entries of different hashes, in the order in which it was appended, is accepted, and
  -- all of its entries are counted.
  pub verify_single_chain-Linked :
      (e : VerifiableRow) (es : List VerifiableRow)
      → Linked none (e ∷ es)
      → HashesDiffer (e ∷ es)
      → verify_single_chain sha256 (e ∷ es) ≡ valid (suc (length es))
  unfolding verify_single_chain
  verify_single_chain-Linked e es l d =
      let one_root : select is_root (e ∷ es) ≡ e ∷ [] =
        rooted e es l.0 (no_more_roots e.entry_hash es l.2) in
      rw (verify_single_chain, one_root) (walk_on (e ∷ es) [] e es refl l d)

  Linked-take :
      (n : ℕ) (prev : Option String) (es : List VerifiableRow)
      → Linked prev es
      → Linked prev (take n es)
  Linked-take zero prev es l = tt
  Linked-take (suc n) prev [] l = tt
  Linked-take (suc n) prev (e ∷ es) l = (l.0, l.1, Linked-take n (some e.entry_hash) es l.2)

  -- What is left of such a chain after its newest entries are removed is accepted as well, as a
  -- chain of as many entries as are left.
  pub verify_single_chain-take :
      (n : ℕ) (e : VerifiableRow) (es : List VerifiableRow)
      → n ≤ length es
      → Linked none (e ∷ es)
      → HashesDiffer (e ∷ es)
      → verify_single_chain sha256 (take (suc n) (e ∷ es)) ≡ valid (suc n)
  verify_single_chain-take n e es short l d =
      let count : length (take n es) ≡ n = omega (arith, length-take n es) in
      verify_single_chain-Linked e (take n es) (l.0, l.1, Linked-take n (some e.entry_hash) es l.2)
        (
          All-take (λ (f : VerifiableRow). f.entry_hash ≢ e.entry_hash) n es d.0,
          HashesDiffer-take n es d.1,
        )
      ∙ ap (λ k. valid (suc k)) count
