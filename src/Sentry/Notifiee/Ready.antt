-- ===== src/Sentry/Notifiee/Ready.antt =====
-- What a handler of node_notifiee.go relies on while it runs, and that waits and writes keep it.
use valtrack.Base.{
  String, List, Bool, false, none, returns, Returns, Returns->>=, Returns-weaken, ◌⊎◌, ◌≡◌, ◌≢◌,
  sym, ◌∙◌, ap, inl, inr, arith, Option-cases,
}
use valtrack.Sentry.Wire.{Wire, Status}
use valtrack.Sentry.Peerstore.{PeerInfo, Peerstore, modify}
use valtrack.Sentry.Peerstore.Frame.{run}
use valtrack.Sentry.Peerstore.Calm.{IsHeld, AreCalm, Extends, Has, Holds, run-Holds, modify-Holds}
use valtrack.Sentry.ReqResp.{ReqResp, set_status}
use valtrack.Sentry.ReqResp.LocalStatus.{set_statuses, set_statuses-fork_digest, set_status_lem}
use valtrack.Sentry.Node.{Node, Interlude, interlude}
use valtrack.Sentry.Notifiee.{Handshake, follow_head}

own-set_statuses :
    (sts : List Status) (r : ReqResp) → r.status ≢ none → (set_statuses sts r).status ≢ none
own-set_statuses sts r h k = elim (Option-cases r.status) [
  | inl e ↦ h e
  | inr (old, e) ↦ let (st, f, _) = set_statuses-fork_digest sts r old e in cc (f, k)
]

pub set_status-own : (st : Status) (r : ReqResp) → r.status ≢ none → (set_status st r).status ≢ none
set_status-own st r h k = elim (set_status_lem st r) [
  | inl (_, e) ↦ cc (ap (λ q. q.status) e, k)
  | inr (_, e) ↦ h (sym (ap (λ q. q.status) e) ∙ k)
]

module _ {W : Wire} where
  -- What the handler of `pid` relies on, from the store `s₀` on: the peers of that store are there
  -- still, the peer's record has what is asked, and the node has a status of its own.
  pub record Ready (s₀ : Peerstore W) (pid : String) (st md : Bool) (n : Node W) : Type 0 where
    pub extends : Extends s₀ n.peerstore
    pub holds : Holds pid st md n.peerstore
    pub own : n.req_resp.status ≢ none

  unfoldable pub CalmInterlude : Peerstore W → String → Interlude W → Type 0
  CalmInterlude s₀ pid m = AreCalm (IsHeld s₀) pid m.ops

  pub interlude-Ready :
      (s₀ : Peerstore W) (pid : String) (st md : Bool) (m : Interlude W) (n : Node W)
      → CalmInterlude s₀ pid m
      → Ready s₀ pid st md n
      → Returns (interlude m n) (Ready s₀ pid st md)
  unfolding interlude CalmInterlude
  interlude-Ready s₀ pid st md m n calm v =
      Returns->>= (run m.ops n.peerstore) _ _ _
        (run-Holds m.ops (IsHeld s₀) pid st md s₀ n.peerstore calm v.extends v.extends v.holds)
        (λ t h. record {
          extends = h.0;
          holds = h.1;
          own = own-set_statuses m.statuses n.req_resp v.own;
        })

  -- A write of the peer's record, stored in the node.
  pub stored-Ready :
      (s₀ : Peerstore W) (pid message : String) (f : PeerInfo W → PeerInfo W) (st md st' md' : Bool)
      (n : Node W)
      → ((i : PeerInfo W) → Has st md i → Has st' md' (f i))
      → Ready s₀ pid st md n
      → Returns
          (modify message pid f n.peerstore)
          (λ t. Ready s₀ pid st' md' (record n { peerstore = t }))
  stored-Ready s₀ pid message f st md st' md' n keep v =
      Returns-weaken (modify message pid f n.peerstore) _ _
        (modify-Holds message pid f st md st' md' s₀ n.peerstore keep v.extends v.holds)
        (λ t h. record { extends = h.0; holds = h.1; own = v.own })

  pub follow_head-cases :
      (st : Status) (n : Node W)
      → n.req_resp.status ≢ none
      → (follow_head st n ≡ returns n)
        ⊎ (follow_head st n ≡ returns (record n { req_resp = set_status st n.req_resp }))
  unfolding follow_head
  follow_head-cases st n own = ground arith

  pub follow_head-Ready :
      (s₀ : Peerstore W) (pid : String) (a b : Bool) (st : Status) (n : Node W)
      → Ready s₀ pid a b n
      → Returns (follow_head st n) (Ready s₀ pid a b)
  follow_head-Ready s₀ pid a b st n v = elim (follow_head-cases st n v.own) [
    | inl e ↦ rw e v
    | inr e ↦
        rw e (record {
          extends = v.extends;
          holds = v.holds;
          own = set_status-own st n.req_resp v.own;
        })
  ]

  -- The interludes of a handshake are calm.
  pub record CalmHandshake (s₀ : Peerstore W) (pid : String) (h : Handshake W) : Type 0 where
    pub status : CalmInterlude s₀ pid h.during_status
    pub ping : CalmInterlude s₀ pid h.during_ping
    pub metadata : CalmInterlude s₀ pid h.during_metadata

  pub forget-Ready :
      {s₀ : Peerstore W} {pid : String} {a b : Bool} {n : Node W}
      → Ready s₀ pid a b n
      → Ready s₀ pid false false n
  forget-Ready v = record {
    extends = v.extends;
    holds = record {
      info = v.holds.info;
      stored = v.holds.stored;
      has = record { status = λ c. cc; metadata = λ c. cc };
    };
    own = v.own;
  }
