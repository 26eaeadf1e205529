-- ===== src/Sse/Channels.antt =====
-- What the loops of the hub (internal/sse/hub.go) do to open channels and their buffers.
use routewerk.Prelude.{
  ℕ, ◌≤◌, ◌<◌, ◌≡◌, refl, ◌∙◌, inl, inr, String, str_eq, true, false, List, [], ◌∷◌, ◌++◌, some,
  arith, ltb, ◌==◌, length, length-append, All, All-imp, All-both, Bool-cases,
}
use routewerk.Sse.Distinct.{IsDistinct}
use routewerk.Sse.Hub.{
  subscriber_buffer_size, Channel, update, close_channel, send, send_all, close_all,
}

module _ {F : Type 0} where
  -- The channels that are registered are open and made.
  abbrev pub AreOpen : ℕ → (ℕ → Channel F) → List (String × ℕ) → Type 0
  AreOpen n channels entries =
      All (λ (e : String × ℕ). ((channels e.1).is_closed ≡ false) × (e.1 < n)) entries

  abbrev pub AreBounded : (ℕ → Channel F) → Type 0
  AreBounded channels = (ch : ℕ) → length (channels ch).buffer ≤ subscriber_buffer_size

  -- A change of one channel leaves the others open.
  pub AreOpen-update :
      (n m ch : ℕ) (c : Channel F) (channels : ℕ → Channel F) (entries : List (String × ℕ))
      → n ≤ m
      → All (λ (x : String × ℕ). (ch == x.1) ≡ false) entries
      → AreOpen n channels entries
      → AreOpen m (update channels ch c) entries
  AreOpen-update n m ch c channels entries l d o =
      All-imp _ _ (λ x h. (ground (arith, h.0, h.1.0), omega (arith, h.1.1, l))) entries
        (All-both _ _ entries d o)

  -- A send to an open channel works, closes nothing and keeps the bound.
  pub send-AreBounded :
      (ch : ℕ) (frame : F) (channels : ℕ → Channel F)
      → (channels ch).is_closed ≡ false
      → AreBounded channels
      → (channels' : ℕ → Channel F) × (send ch frame channels ≡ some channels')
        × AreBounded channels'
        × ((j : ℕ) → (channels' j).is_closed ≡ (channels j).is_closed)
  unfolding send
  send-AreBounded ch frame channels o b =
      elim (Bool-cases (ltb (length (channels ch).buffer) subscriber_buffer_size)) [
        | inl l ↦ (
          update channels ch (record (channels ch) { buffer = (channels ch).buffer ++ frame ∷ [] }),
          ground (arith, o, l),
          λ j. ground (arith, b j, l, length-append (channels ch).buffer (frame ∷ [])),
          λ j. ground arith,
        )
        | inr l ↦ (channels, ground (arith, o, l), b, λ j. refl)
      ]

  pub send_all-AreBounded :
      (n : ℕ) (topic : String) (frame : F) (entries : List (String × ℕ)) (channels : ℕ → Channel F)
      → AreOpen n channels entries
      → AreBounded channels
      → (channels' : ℕ → Channel F) × (send_all topic frame entries channels ≡ some channels')
        × AreBounded channels'
        × ((j : ℕ) → (channels' j).is_closed ≡ (channels j).is_closed)
  unfolding send_all
  send_all-AreBounded n topic frame [] channels o b = (channels, refl, b, λ j. refl)
  send_all-AreBounded n topic frame (e ∷ rest) channels o b = elim (Bool-cases (str_eq e.0 topic)) [
    | inr t ↦
        let (cs, q, b', k) = send_all-AreBounded n topic frame rest channels o.1 b in
        (cs, ground (arith, t, q), b', k)
    | inl t ↦
        let (cs, q, b', k) = send-AreBounded e.1 frame channels o.0.0 b in
        let (cs', q', b'', k') =
          send_all-AreBounded n topic frame rest cs
            (All-imp _ _ (λ x h. (k x.1 ∙ h.0, h.1)) rest o.1) b' in
        (cs', ground (arith, t, q, q'), b'', λ j. k' j ∙ k j)
  ]

  pub close_all-AreBounded :
      (n : ℕ) (entries : List (String × ℕ)) (channels : ℕ → Channel F)
      → IsDistinct entries
      → AreOpen n channels entries
      → AreBounded channels
      → (channels' : ℕ → Channel F) × (close_all entries channels ≡ some channels')
        × AreBounded channels'
  unfolding close_all close_channel
  close_all-AreBounded n [] channels d o b = (channels, refl, b)
  close_all-AreBounded n (e ∷ rest) channels d o b =
      let cs : ℕ → Channel F = update channels e.1 (record (channels e.1) { is_closed = true }) in
      let (cs', q, b') =
        close_all-AreBounded n rest cs d.1
          (AreOpen-update n n e.1 _ channels rest (omega arith) d.0 o.1)
          (λ j. ground (arith, b j)) in
      (cs', ground (arith, o.0.0, q), b')
