-- ===== src/Sentry/Publisher/Connects.antt =====
-- Which peers the dialer of pkg/ethereum/peer_dialer.go connects to.
use valtrack.Base.{
  String, str_eq, eq_iff, List, [], ◌∷◌, In, Bool-cases, ◌≢◌, ◌↔◌, inl, inr, sym, ap, ◌∙◌,
}
use valtrack.Sentry.Wire.{Wire, AddrInfo}
use valtrack.Sentry.Publisher.{Selected, ctx_done, closed, received, peer_dialer_serve}

module _ {W : Wire} where
  -- The peers that come in before the context ends or the channel is closed.
  abbrev pub arrived : List (Selected W) → List (AddrInfo W)
  arrived [] = []
  arrived (ctx_done ∷ found) = []
  arrived (closed ∷ found) = []
  arrived (received a ∷ found) = a ∷ arrived found

  -- The dialer connects to exactly the peers that come in before the context ends or the channel is
  -- closed, but for the node itself.
  pub In-peer_dialer_serve :
      (own : String) (found : List (Selected W)) (a : AddrInfo W)
      → In a (peer_dialer_serve own found) ↔ (In a (arrived found) × (a.id ≢ own))
  unfolding peer_dialer_serve
  In-peer_dialer_serve own [] a = ((λ h. absurd h), (λ h. absurd h.0))
  In-peer_dialer_serve own (ctx_done ∷ found) a = ((λ h. absurd h), (λ h. absurd h.0))
  In-peer_dialer_serve own (closed ∷ found) a = ((λ h. absurd h), (λ h. absurd h.0))
  In-peer_dialer_serve own (received b ∷ found) a =
      let (there, back) = In-peer_dialer_serve own found a in
      elim (Bool-cases (str_eq b.id own)) [
        | inl e ↦
            let itself = (eq_iff b.id own).0 e in
            rw (e, peer_dialer_serve)
              (
                (λ h. (inr (there h).0, (there h).1)),
                (λ (i, ne). elim i [
                  | inl same ↦ absurd (ne (ap (λ x. x.id) same ∙ itself))
                  | inr rest ↦ back (rest, ne)
                ]),
              )
        | inr e ↦
            rw (e, peer_dialer_serve)
              (
                (λ h. elim h [
                  | inl same ↦ (
                    inl same,
                    λ itself. cc (
                      ap (λ x. x.id) same,
                      itself,
                      e,
                      (eq_iff b.id own).1 (sym (ap (λ x. x.id) same) ∙ itself),
                    ),
                  )
                  | inr rest ↦ (inr (there rest).0, (there rest).1)
                ]),
                (λ (i, ne). elim i [ inl same ↦ inl same | inr rest ↦ inr (back (rest, ne)) ]),
              )
      ]
