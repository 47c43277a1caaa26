-- ===== src/Sentry/ReqResp/LocalStatus.antt =====
-- The node's own status and metadata (reqresp.go).
use valtrack.Base.{
  ℕ, zero, suc, ◌<◌, ◌==◌, List, [], ◌∷◌, true, Option, none, some, ok, ◌≡◌, ◌≢◌, ◌↔◌, refl, sym,
  ap, ◌∙◌, inl, inr, ◌⊎◌, arith, Bool-cases, Option-cases, ◌≤◌, if◌then◌else◌,
}
use valtrack.Sentry.Wire.{Status}
use valtrack.Sentry.ReqResp.{
  ReqResp, Bitvector64, set_bits_below, new_req_resp, bytes_equal, same_status, cpy_status,
  set_status,
}

pub bytes_equal_iff : (xs ys : List ℕ) → (bytes_equal xs ys ≡ true) ↔ (xs ≡ ys)
unfolding bytes_equal
bytes_equal_iff [] [] = ground arith
bytes_equal_iff [] (y ∷ ys) = ground arith
bytes_equal_iff (x ∷ xs) [] = ground arith
bytes_equal_iff (x ∷ xs) (y ∷ ys) = ground (arith, bytes_equal_iff xs ys)

same_status-eq : (a b : Status) → same_status a b ≡ true → a ≡ b
unfolding same_status
same_status-eq a b h = ground (
  arith,
  bytes_equal_iff a.fork_digest b.fork_digest,
  bytes_equal_iff a.finalized_root b.finalized_root,
  bytes_equal_iff a.head_root b.head_root,
)

-- The copy that goes out equals the local status.
pub cpy_status_lem : (r : ReqResp) → cpy_status r ≡ r.status
unfolding cpy_status
cpy_status_lem r = ground arith

-- A status is acceptable if there is none yet, or if its fork digest is that of the one held.
abbrev pub Accepts : Option Status → Status → Type 0
Accepts none st = Unit
Accepts (some old) st = old.fork_digest ≡ st.fork_digest

pub set_status-some :
    (st old : Status) (r : ReqResp)
    → r.status ≡ some old
    → ((old.fork_digest ≡ st.fork_digest) × (set_status st r ≡ record r { status = some st }))
      ⊎ ((old.fork_digest ≢ st.fork_digest) × (set_status st r ≡ r))
unfolding set_status
set_status-some st old r h = elim (Bool-cases (bytes_equal old.fork_digest st.fork_digest)) [
  | inl e ↦ inl ((bytes_equal_iff _ _).0 e, ground (arith, same_status-eq old st))
  | inr e ↦
      inr ((λ d. ground (arith, bytes_equal_iff old.fork_digest st.fork_digest)), ground arith)
]

-- SetStatus replaces the status held as a whole if none is held or the fork digests agree, and
-- otherwise leaves everything as it was.
pub set_status_lem :
    (st : Status) (r : ReqResp)
    → (Accepts r.status st × (set_status st r ≡ record r { status = some st }))
      ⊎ ((¬ Accepts r.status st) × (set_status st r ≡ r))
set_status_lem st r = elim (Option-cases r.status) [
  | inl e ↦ inl (rw e tt, unfold set_status in ground arith)
  | inr (old, e) ↦ simp e (set_status-some st old r e)
]

-- The statuses given to `SetStatus`, one after the other.
unfoldable pub set_statuses : List Status → ReqResp → ReqResp
set_statuses [] r = r
set_statuses (st ∷ sts) r = set_statuses sts (set_status st r)

-- Once the node has a status, no sequence of calls of SetStatus changes its fork digest or takes
-- the status away.
pub set_statuses-fork_digest :
    (sts : List Status) (r : ReqResp) (old : Status)
    → r.status ≡ some old
    → (st : Status) × ((set_statuses sts r).status ≡ some st) × (st.fork_digest ≡ old.fork_digest)
unfolding set_statuses
set_statuses-fork_digest [] r old h = (old, h, refl)
set_statuses-fork_digest (new ∷ sts) r old h = elim (set_status-some new old r h) [
  | inl (e, u) ↦
      let (st, f, g) = set_statuses-fork_digest sts (set_status new r) new (ap (λ q. q.status) u) in
      (st, f, g ∙ sym e)
  | inr (_, u) ↦ set_statuses-fork_digest sts (set_status new r) old (ap (λ q. q.status) u ∙ h)
]

-- go-bitfield's documentation of `SetBitAt` on a bit below the length, 64, and of `BitAt`.
pub record BitLaws (B : Bitvector64) : Type 0 where
  pub bit_at-set_bit :
      (v : List ℕ) (i j : ℕ)
      → i < 64
      → B.bit_at (B.set_bit v i) j ≡ (if i == j then true else B.bit_at v j)

set_bits_below-bit :
    (B : Bitvector64)
    → BitLaws B
    → (n : ℕ) (v : List ℕ) (j : ℕ) → n ≤ 64
    → j < n
    → B.bit_at (set_bits_below B n v) j ≡ true
unfolding set_bits_below
set_bits_below-bit B laws zero v j le lt = absurd (omega arith)
set_bits_below-bit B laws (suc n) v j le lt = elim (Bool-cases (n == j)) [
  | inl e ↦ rw (laws.bit_at-set_bit (set_bits_below B n v) n j (omega arith), e)
  | inr e ↦
      rw (laws.bit_at-set_bit (set_bits_below B n v) n j (omega arith), e)
        (set_bits_below-bit B laws n v j (omega arith) (ground arith))
]

-- A ReqResp that NewReqResp makes has all 64 bits of its attestation subnets set, if the bit
-- vectors obey go-bitfield's documentation.
pub new_req_resp-attnets :
    (B : Bitvector64) (r : ReqResp) (j : ℕ)
    → BitLaws B
    → new_req_resp B true ≡ ok r
    → j < 64
    → B.bit_at r.meta_data.attnets j ≡ true
unfolding new_req_resp
new_req_resp-attnets B r j laws h lt =
    let here = set_bits_below-bit B laws 64 B.empty j (omega arith) lt in ground arith
