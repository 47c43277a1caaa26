-- ===== src/Sentry/Peerstore/Validity.antt =====
-- What holds of the records in the store, whatever calls were made.
use valtrack.Base.{
  ℕ, ◌<◌, String, List, [], ◌∷◌, Option, none, some, Error, returns, ◌>>=◌, ◌≡◌, refl, sym, ◌∙◌,
  ◌≢◌, inl, inr, str_eq, eq_iff, arith, >>=-eq-returns, Bool-cases, subst, Option-cases,
}
use valtrack.Base.Dict
use valtrack.Sentry.Wire.{Wire}
use valtrack.Sentry.Peerstore.{
  PeerInfo, Peerstore, new_peerstore, get, put, modify, insert, set_state, set_backoff, reset,
  add_subscribed_subnets, set_status, set_metadata, set_client_version, backed_off, cleared,
}
use valtrack.Sentry.Peerstore.Frame.{
  Op, inserts, sets_state, sets_backoff, resets, adds_subnets, sets_status, sets_metadata,
  sets_client_version, target, apply, run, effect, Refines, apply-Refines,
}

-- A record carries the identity under which it is stored; a peer that is backed off has an error on
-- record; the counter is a `uint32`.
pub record InfoIsValid {W : Wire} (k : String) (i : PeerInfo W) : Type 0 where
  pub named : i.id ≡ k
  pub erred : 0 < i.backoff_counter → i.last_err ≢ none
  pub counted : i.backoff_counter < 4294967296

pub record IsValid {W : Wire} (s : Peerstore W) : Type 0 where
  pub distinct : Dict.Distinct s.peers
  pub records : (k : String) (i : PeerInfo W) → get s k ≡ some i → InfoIsValid k i

module _ {W : Wire} where
  insert-Distinct :
      (id : String) (addr : W.Multiaddr) (enode : W.Enode) (now : ℕ) (s : Peerstore W)
      → Dict.Distinct s.peers
      → Dict.Distinct (insert id addr enode now s).peers
  unfolding insert put
  insert-Distinct id addr enode now s d = Dict.insert-Distinct id _ s.peers d

  set_backoff-Distinct :
      (id : String) (e : Error) (now : ℕ) (s t : Peerstore W)
      → Dict.Distinct s.peers
      → (set_backoff id e now s >>= λ r. returns r.1) ≡ returns t
      → Dict.Distinct t.peers
  unfolding set_backoff put
  set_backoff-Distinct id e now s t d h = elim (Option-cases (get s id)) [
    | inl x ↦ ground arith
    | inr (i, x) ↦ ground (arith, Dict.insert-Distinct id (backed_off e now i) s.peers d)
  ]

  modify-Distinct :
      (message id : String) (f : PeerInfo W → PeerInfo W) (s t : Peerstore W)
      → Dict.Distinct s.peers
      → modify message id f s ≡ returns t
      → Dict.Distinct t.peers
  unfolding modify put
  modify-Distinct message id f s t d h = elim (Option-cases (get s id)) [
    | inl e ↦ ground (arith)
    | inr (i, e) ↦ ground (arith, Dict.insert-Distinct id (f i) s.peers d)
  ]

  apply-Distinct :
      (op : Op W) (s t : Peerstore W)
      → Dict.Distinct s.peers
      → apply op s ≡ returns t
      → Dict.Distinct t.peers
  unfolding apply set_state reset add_subscribed_subnets set_status set_metadata set_client_version
  apply-Distinct (inserts id addr enode now) s t d h =
      ground (arith, insert-Distinct id addr enode now s d)
  apply-Distinct (sets_state id state now) s t d h = modify-Distinct _ id _ s t d h
  apply-Distinct (sets_backoff id e now) s t d h = set_backoff-Distinct id e now s t d h
  apply-Distinct (resets id now) s t d h = modify-Distinct _ id _ s t d h
  apply-Distinct (adds_subnets id subnets now) s t d h = modify-Distinct _ id _ s t d h
  apply-Distinct (sets_status id status now) s t d h = modify-Distinct _ id _ s t d h
  apply-Distinct (sets_metadata id md now) s t d h = modify-Distinct _ id _ s t d h
  apply-Distinct (sets_client_version id version) s t d h = modify-Distinct _ id _ s t d h

  effect-InfoIsValid :
      (op : Op W) (o : Option (PeerInfo W)) (i : PeerInfo W)
      → ((j : PeerInfo W) → o ≡ some j → InfoIsValid (target op) j)
      → effect op o ≡ some i
      → InfoIsValid (target op) i
  unfolding backed_off cleared
  effect-InfoIsValid (inserts id addr enode now) o i v h = ground arith
  effect-InfoIsValid op none i v h = cc
  effect-InfoIsValid (sets_state id state now) (some j) i v h = ground (arith, v j refl)
  effect-InfoIsValid (sets_backoff id e now) (some j) i v h = ground (arith, v j refl)
  effect-InfoIsValid (resets id now) (some j) i v h = ground (arith, v j refl)
  effect-InfoIsValid (adds_subnets id subnets now) (some j) i v h = ground (arith, v j refl)
  effect-InfoIsValid (sets_status id status now) (some j) i v h = ground (arith, v j refl)
  effect-InfoIsValid (sets_metadata id md now) (some j) i v h = ground (arith, v j refl)
  effect-InfoIsValid (sets_client_version id version) (some j) i v h = ground (arith, v j refl)

  pub new_peerstore-IsValid : (backoff : ℕ) → IsValid (new_peerstore {W = W} backoff)
  unfolding new_peerstore get Dict.lookup
  new_peerstore-IsValid backoff = record { distinct = tt; records = λ k i h. cc }

  pub apply-IsValid :
      (op : Op W) (s t : Peerstore W) → IsValid s → apply op s ≡ returns t → IsValid t
  apply-IsValid op s t v h = record {
    distinct = apply-Distinct op s t v.distinct h;
    records = λ k i e.
        let there = (subst (Refines op s) h (apply-Refines op s)).0 k in
        elim (Bool-cases (str_eq (target op) k)) [
          | inl same ↦
              let here = (eq_iff (target op) k).0 same in
              subst (λ x. InfoIsValid x i) here
                (effect-InfoIsValid op (get s k) i
                  (λ j g. subst (λ x. InfoIsValid x j) (sym here) (v.records k j g))
                  (sym (rw same at there) ∙ e))
          | inr other ↦ v.records k i (sym (rw other at there) ∙ e)
        ];
  }

  pub run-IsValid :
      (ops : List (Op W)) (s t : Peerstore W) → IsValid s → run ops s ≡ returns t → IsValid t
  unfolding run
  run-IsValid [] s t v h = subst IsValid (ground arith) v
  run-IsValid (op ∷ ops) s t v h =
      let (m, first, rest) = >>=-eq-returns (apply op s) (run ops) h in
      run-IsValid ops m t (apply-IsValid op s m v first) rest

  -- After any calls on a new store that do not panic, in whatever order, no peer has two records,
  -- each record carries its peer's identity, and a peer that is backed off has its last error on
  -- record.
  pub run-new_peerstore-IsValid :
      (backoff : ℕ) (ops : List (Op W)) (t : Peerstore W)
      → run ops (new_peerstore backoff) ≡ returns t
      → IsValid t
  run-new_peerstore-IsValid backoff ops t = run-IsValid ops _ t (new_peerstore-IsValid backoff)
