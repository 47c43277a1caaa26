-- ===== src/Sentry/Goroutines/Turns.antt =====
-- The invariant of the handlers of pkg/ethereum/node_notifiee.go that take turns: each has its own
-- peer, whose record is as the handler's phase needs it.
use valtrack.Base.{
  String, str_eq, eq_iff, List, [], ◌∷◌, ◌++◌, All, In, In-append, In-append_left, In-append_right,
  false, Option, none, some, Outcome, returns, Returns, ◌≡◌, ◌≢◌, refl, sym, ap, ◌∙◌, subst, ◌⊎◌,
  inl, inr, Bool-cases,
}
use valtrack.Sentry.Wire.{Wire, AddrInfo}
use valtrack.Sentry.Peerstore.{Peerstore, get}
use valtrack.Sentry.Peerstore.Calm.{run-Extends}
use valtrack.Sentry.Peerstore.Validity.{IsValid, run-IsValid}
use valtrack.Sentry.Node.{Node}
use valtrack.Sentry.Notifiee.Calls.{IsDescribed, NodeLeads}
use valtrack.Sentry.Goroutines.{Phase, left, Goroutines}
use valtrack.Sentry.Goroutines.Resume.{Fits, Remains, Resumed}
use valtrack.Sentry.Goroutines.Rest.{Quiet, Quiet-Fits}

-- No two handlers have the same peer.
abbrev pub Apart : List (String × Phase) → Type 0
Apart [] = Unit
Apart (g ∷ gs) = ((x : String × Phase) → In x gs → x.0 ≢ g.0) × Apart gs

Apart-split :
    (before after : List (String × Phase)) (g : String × Phase)
    → Apart (before ++ (g ∷ after))
    → ((x : String × Phase) → In x (before ++ after) → x.0 ≢ g.0) × Apart (before ++ after)
Apart-split [] after g h = h
Apart-split (b ∷ before) after g h =
    let (off, apart) = Apart-split before after g h.1 in
    (
      λ x i. elim i [
        | inl e ↦
            λ k. h.0 g (In-append_right g before (g ∷ after) (inl refl)) (sym k ∙ ap (λ y. y.0) e)
        | inr j ↦ off x j
      ],
      (
        λ x i. h.0 x (elim (In-append x before after i) [
          | inl j ↦ In-append_left x before (g ∷ after) j
          | inr j ↦ In-append_right x before (g ∷ after) (inr j)
        ]),
        apart,
      ),
    )

pub Apart-join :
    (before after : List (String × Phase)) (g : String × Phase)
    → ((x : String × Phase) → In x (before ++ after) → x.0 ≢ g.0)
    → Apart (before ++ after)
    → Apart (before ++ (g ∷ after))
Apart-join [] after g off apart = (off, apart)
Apart-join (b ∷ before) after g off apart = (
  λ x i. elim (In-append x before (g ∷ after) i) [
    | inl j ↦ apart.0 x (In-append_left x before after j)
    | inr (inl e) ↦ λ k. off b (inl refl) (sym k ∙ ap (λ y. y.0) e)
    | inr (inr j) ↦ apart.0 x (In-append_right x before after j)
  ],
  Apart-join before after g (λ x i. off x (inr i)) apart.1,
)

pub str_eq-ne : (a b : String) → b ≢ a → str_eq a b ≡ false
str_eq-ne a b h = elim (Bool-cases (str_eq a b)) [
  | inl e ↦ absurd (h (sym ((eq_iff a b).0 e)))
  | inr e ↦ e
]

pub Returns-at :
    {A : Type 0} (o : Outcome A) (a : A) (P : A → Type 0) → o ≡ returns a → Returns o P → P a
Returns-at o a P e h = subst (λ x. Returns x P) e h

module _ {W : Wire} where
  -- The node has a status, its store is valid and each event on its channel has metadata; no two
  -- handlers have the same peer, and each peer's record fits the handler's phase; the peers of the
  -- channel are in the store.
  pub record IsOrderly (s : Goroutines W) : Type 0 where
    pub own : s.node.req_resp.status ≢ none
    pub valid : IsValid s.node.peerstore
    pub described : All IsDescribed s.node.metadata_events
    pub apart : Apart s.running
    pub fits : (g : String × Phase) → In g s.running → Fits g.0 g.1 s.node.peerstore
    pub queued : (a : AddrInfo W) → In a s.reconnect_chan → get s.node.peerstore a.id ≢ none

  -- A turn whose calls lead from store to store keeps what does not concern the handlers.
  pub led-IsOrderly :
      (s t : Goroutines W)
      → NodeLeads s.node t.node
      → t.node.req_resp.status ≢ none
      → Apart t.running
      → ((g : String × Phase) → In g t.running → Fits g.0 g.1 t.node.peerstore)
      → ((a : AddrInfo W)
          → In a t.reconnect_chan
          → In a s.reconnect_chan ⊎ (get t.node.peerstore a.id ≢ none))
      → IsOrderly s
      → IsOrderly t
  led-IsOrderly s t l own apart fits chan v = record {
    own = own;
    valid = run-IsValid l.calls.ops s.node.peerstore t.node.peerstore v.valid l.calls.ran;
    described = l.described v.described;
    apart = apart;
    fits = fits;
    queued = λ a h. elim (chan a h) [
      | inl old ↦ run-Extends l.calls.ops _ _ l.calls.ran a.id (v.queued a old)
      | inr new ↦ new
    ];
  }

  Fits-same :
      (pid : String) (ph : Phase) (s t : Peerstore W)
      → get t pid ≡ get s pid
      → Fits pid ph s
      → Fits pid ph t
  Fits-same pid ph s t e v = record {
    info = v.info;
    stored = e ∙ v.stored;
    state = v.state;
    has = v.has;
  }

  -- A quiet call and nothing else.
  pub Quiet-IsOrderly :
      (s : Goroutines W) (n : Node W) (chan : List (AddrInfo W))
      → NodeLeads s.node n
      → n.req_resp.status ≢ none
      → Quiet s.node.peerstore n.peerstore
      → ((a : AddrInfo W) → In a chan → In a s.reconnect_chan ⊎ (get n.peerstore a.id ≢ none))
      → IsOrderly s
      → IsOrderly (record s { node = n; reconnect_chan = chan })
  Quiet-IsOrderly s n chan l own q known v =
      led-IsOrderly s (record s { node = n; reconnect_chan = chan }) l own v.apart
        (λ g i. Quiet-Fits s.node.peerstore n.peerstore g.0 g.1 q (v.fits g i)) known v

  pub resumed-IsOrderly :
      (s : Goroutines W) (pid : String) (ph : Phase) (before after : List (String × Phase))
      (next : Option Phase) (n : Node W)
      → s.running ≡ before ++ ((pid, ph) ∷ after)
      → NodeLeads s.node n
      → Resumed pid s.node (next, n)
      → IsOrderly s
      → IsOrderly (record s { node = n; running = before ++ (left pid next ++ after) })
  resumed-IsOrderly s pid ph before after next n at l r v =
      let (off, apart) = Apart-split before after (pid, ph) (subst Apart at v.apart) in
      let old : (g : String × Phase) → In g (before ++ after) → Fits g.0 g.1 n.peerstore = λ g i.
        Fits-same g.0 g.1 s.node.peerstore n.peerstore (r.others g.0 (str_eq-ne pid g.0 (off g i)))
          (v.fits g (
            rw at (elim (In-append g before after i) [
              | inl j ↦ In-append_left g before ((pid, ph) ∷ after) j
              | inr j ↦ In-append_right g before ((pid, ph) ∷ after) (inr j)
            ]))) in
      goes next r.remains off apart old
    where
      goes :
          (next : Option Phase)
          → Remains pid next n
          → ((x : String × Phase) → In x (before ++ after) → x.0 ≢ pid)
          → Apart (before ++ after)
          → ((g : String × Phase) → In g (before ++ after) → Fits g.0 g.1 n.peerstore)
          → IsOrderly (record s { node = n; running = before ++ (left pid next ++ after) })
      goes none remains off apart old =
          led-IsOrderly s (record s { node = n; running = before ++ after }) l r.own apart old
            (λ a i. inl i) v
      goes (some ph') remains off apart old =
          led-IsOrderly s (record s { node = n; running = before ++ ((pid, ph') ∷ after) }) l r.own
            (Apart-join before after (pid, ph') off apart)
            (λ g i. elim (In-append g before ((pid, ph') ∷ after) i) [
              | inl j ↦ old g (In-append_left g before after j)
              | inr (inl e) ↦ subst (λ x. Fits x.0 x.1 n.peerstore) (sym e) remains
              | inr (inr j) ↦ old g (In-append_right g before after j)
            ])
            (λ a i. inl i) v
