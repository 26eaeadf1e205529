-- ===== src/Sse/Delivery.antt =====
-- What Publish (internal/sse/hub.go) puts into which buffer.
use routewerk.Prelude.{
  ℕ, ◌≡◌, sym, ap, ◌∙◌, inl, inr, String, str_eq, Bool, false, not, ◌&&◌, List, [], ◌∷◌, ◌++◌, some,
  arith, ltb, ◌==◌, length, All-imp, Bool-cases, Option-cases, if◌then◌else◌,
}
use routewerk.Sse.Hub.{
  subscriber_buffer_size, Channel, Hub, update, send, is_registered, send_all, publish,
}
use routewerk.Sse.Distinct.{IsDistinct, registered-apart}
use routewerk.Sse.Channels.{AreOpen}
use routewerk.Sse.Safe.{IsSafe}

module _ {F : Type 0} (topic : String) (frame : F) (ch : ℕ) where
  -- The buffer after a frame is offered.
  abbrev pub offered : Bool → List F → List F
  offered reached buffer =
      if reached && ltb (length buffer) subscriber_buffer_size then buffer ++ frame ∷ [] else buffer

  send-buffer :
      (a : ℕ) (channels cs : ℕ → Channel F)
      → (channels a).is_closed ≡ false
      → send a frame channels ≡ some cs
      → ((cs ch).buffer ≡ offered (a == ch) (channels ch).buffer)
        × ((j : ℕ) → (cs j).is_closed ≡ (channels j).is_closed)
  unfolding send
  send-buffer a channels cs o e =
      elim (Bool-cases (ltb (length (channels a).buffer) subscriber_buffer_size)) [
        | inl l ↦
            let q : update channels a
                  (record (channels a) { buffer = (channels a).buffer ++ frame ∷ [] })
                ≡ cs =
              ground (arith, e, o, l) in
            (
              ap (λ (f : ℕ → Channel F). (f ch).buffer) (sym q) ∙ ground (arith, l),
              λ j. ap (λ (f : ℕ → Channel F). (f j).is_closed) (sym q) ∙ ground arith,
            )
        | inr l ↦
            let q : channels ≡ cs = ground (arith, e, o, l) in
            (
              ap (λ (f : ℕ → Channel F). (f ch).buffer) (sym q) ∙ ground (arith, l),
              λ j. ap (λ (f : ℕ → Channel F). (f j).is_closed) (sym q),
            )
      ]

  send_all-buffer :
      (n : ℕ) (entries : List (String × ℕ)) (channels channels' : ℕ → Channel F)
      → IsDistinct entries
      → AreOpen n channels entries
      → send_all topic frame entries channels ≡ some channels'
      → (channels' ch).buffer ≡ offered (is_registered topic ch entries) (channels ch).buffer
  unfolding send_all is_registered send
  send_all-buffer n [] channels channels' d o e = ground (arith, e)
  send_all-buffer n (x ∷ rest) channels channels' d o e = elim (Bool-cases (str_eq x.0 topic)) [
    | inr t ↦
        send_all-buffer n rest channels channels' d.1 o.1 (ground (arith, e, t)) ∙ ground (arith, t)
    | inl t ↦ elim (Option-cases (send x.1 frame channels)) [
      | inl q ↦ absurd (ground (arith, e, t, q))
      | inr (cs, q) ↦
          let (b, k) = send-buffer x.1 channels cs o.0.0 q in
          let later =
            send_all-buffer n rest cs channels' d.1
              (All-imp _ _ (λ y h. (k y.1 ∙ h.0, h.1)) rest o.1) (ground (arith, e, t, q)) in
          elim (Bool-cases (is_registered topic ch rest)) [
            | inl r ↦ ground (arith, later, b, t, r, registered-apart x.1 ch topic rest d.0 r)
            | inr r ↦ ground (arith, later, b, t, r)
          ]
    ]
  ]

  -- Publish on an open hub appends the frame to the buffer of every channel that is subscribed to the
  -- topic and holds fewer than 16 frames, and changes no other buffer; on a closed hub it changes none.
  pub publish-buffer :
      (h h' : Hub F)
      → IsSafe h
      → publish topic frame h ≡ some h'
      → (h'.channels ch).buffer
        ≡ offered (not h.is_closed && is_registered topic ch h.subscribers) (h.channels ch).buffer
  unfolding publish
  publish-buffer h h' s e = elim (Bool-cases h.is_closed) [
    | inl c ↦
        let q : h ≡ h' = ground (arith, e, c) in
        ap (λ (x : Hub F). (x.channels ch).buffer) (sym q) ∙ ground (arith, c)
    | inr c ↦ elim (Option-cases (send_all topic frame h.subscribers h.channels)) [
      | inl n ↦ absurd (ground (arith, e, c, n))
      | inr (cs, n) ↦
          let q : record h { channels = cs } ≡ h' = ground (arith, e, c, n) in
          ap (λ (x : Hub F). (x.channels ch).buffer) (sym q)
          ∙ send_all-buffer h.next h.subscribers h.channels cs s.distinct s.open_entries n
          ∙ ground (arith, c)
    ]
  ]
