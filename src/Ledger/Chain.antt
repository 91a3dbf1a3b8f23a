-- ===== src/Ledger/Chain.antt =====
-- `verifySingleChain` and `verifyChain` of src/services/ledger.service.ts. The rows come from the
-- SELECT, in the order of `seq`, with the preimage that PostgreSQL renders of each; SHA-256 is given.
use ticketing_app.Prelude.{
  ℕ, zero, suc, ◌+◌, String, Bool, true, false, Option, none, some, List, [], ◌∷◌, select, take,
  length, str_eq, ◌==◌, if◌then◌else◌,
}

-- VerifiableRow; the chain of an entry is its order, or the one that all other entries share
pub record VerifiableRow : Type 0 where
  pub seq : ℕ
  pub chain_key : Option ℕ
  pub entry_hash : String
  pub prev_hash : Option String
  pub preimage : String

-- The reasons that are given
pub data Fault : Type 0 where
  no_root altered unreachable : Fault
  many_roots forks : ℕ → Fault

-- SingleChainOutcome, with the number of entries checked; a walk that is cut off is `unfinished`
pub data SingleChainOutcome : Type 0 where
  valid : ℕ → SingleChainOutcome
  broken : ℕ → Option ℕ → Fault → SingleChainOutcome
  unfinished : SingleChainOutcome

abbrev pub same_hash : String → Option String → Bool
same_hash h none = false
same_hash h (some g) = str_eq g h

abbrev pub is_none_hash : Option String → Bool
is_none_hash none = true
is_none_hash (some _) = false

-- `entry.prevHash === null`
abbrev pub is_root : VerifiableRow → Bool
is_root e = is_none_hash e.prev_hash

-- `byPrev.get(hash)`
unfoldable pub by_prev : List VerifiableRow → String → List VerifiableRow
by_prev entries hash = select (λ (e : VerifiableRow). same_hash hash e.prev_hash) entries

-- the test after the loop
unfoldable pub finish : ℕ → ℕ → SingleChainOutcome
finish walked total = if walked == total then valid walked else broken walked none unreachable

module _ (sha256 : String → String) where
  -- the loop, from `current` on; the fuel counts the entries that are walked
  unfoldable pub walk : List VerifiableRow → ℕ → ℕ → VerifiableRow → SingleChainOutcome
  unfolding finish
  walk entries zero walked current = unfinished
  walk entries (suc fuel) walked current =
      if str_eq (sha256 current.preimage) current.entry_hash
      then elim (by_prev entries current.entry_hash) [
        | [] ↦ finish (suc walked) (length entries)
        | (next ∷ []) ↦ walk entries fuel (suc walked) next
        | (next ∷ second ∷ more) ↦
            broken (suc walked) (some second.seq) (forks (suc (suc (length more))))
      ]
      else broken walked (some current.seq) altered

  abbrev pub first_seq : List VerifiableRow → Option ℕ
  first_seq [] = none
  first_seq (e ∷ _) = some e.seq

  -- verifySingleChain
  unfoldable pub verify_single_chain : List VerifiableRow → SingleChainOutcome
  unfolding walk
  verify_single_chain entries = elim (select is_root entries) [
    | [] ↦ broken 0 (first_seq entries) no_root
    | (root ∷ []) ↦ walk entries (length entries) 0 root
    | (root ∷ second ∷ more) ↦ broken 0 (some second.seq) (many_roots (suc (suc (length more))))
  ]

-- ChainVerification
pub record ChainVerification : Type 0 where
  pub is_valid : Bool
  pub entries_checked : ℕ
  pub chains_checked : ℕ
  pub first_broken_seq : Option ℕ
  pub reason : Option Fault

-- the key of a bucket of `byChain`
abbrev pub same_chain : Option ℕ → VerifiableRow → Bool
same_chain none e = elim e.chain_key [ none ↦ true | some _ ↦ false ]
same_chain (some k) e = elim e.chain_key [ none ↦ false | some n ↦ n == k ]

unfoldable pub bucket : Option ℕ → List VerifiableRow → List VerifiableRow
bucket key rows = select (same_chain key) rows

abbrev pub seen_chain : VerifiableRow → List VerifiableRow → Bool
seen_chain e [] = false
seen_chain e (f ∷ fs) = if same_chain e.chain_key f then true else seen_chain e fs

-- `byChain.keys()`: each key where it comes first, after the rows that have been read
unfoldable pub chain_keys : List VerifiableRow → List VerifiableRow → List (Option ℕ)
chain_keys before [] = []
chain_keys before (e ∷ es) =
    let rest = chain_keys (e ∷ before) es in
    if seen_chain e before then rest else e.chain_key ∷ rest

module _ (sha256 : String → String) (rows : List VerifiableRow) (total : ℕ) where
  -- what `verifyChain` returns for a chain that is not accepted
  abbrev pub refused_chain : ℕ → Option ℕ → Option Fault → ChainVerification
  refused_chain checked seq fault = record {
    is_valid = false;
    entries_checked = checked;
    chains_checked = total;
    first_broken_seq = seq;
    reason = fault;
  }

  -- the loop over the chains
  unfoldable pub verify_each : ℕ → List (Option ℕ) → ChainVerification
  verify_each checked [] = record {
    is_valid = true;
    entries_checked = checked;
    chains_checked = total;
    first_broken_seq = none;
    reason = none;
  }
  verify_each checked (k ∷ ks) = elim (verify_single_chain sha256 (bucket k rows)) [
    | valid n ↦ verify_each (checked + n) ks
    | broken n seq fault ↦ refused_chain (checked + n) seq (some fault)
    | unfinished ↦ refused_chain checked none none
  ]

abbrev pub in_scope : Option (Option ℕ) → List VerifiableRow → List VerifiableRow
in_scope none rows = rows
in_scope (some key) rows = bucket key rows

-- verifyChain; the options are a chain, if one is asked for, and the limit
unfoldable pub verify_chain :
    (String → String) → Option (Option ℕ) → ℕ → List VerifiableRow → ChainVerification
unfolding verify_each chain_keys
verify_chain sha256 scope limit ledger =
    let rows = take limit (in_scope scope ledger) in
    let keys = chain_keys [] rows in verify_each sha256 rows (length keys) 0 keys
