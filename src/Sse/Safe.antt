-- ===== src/Sse/Safe.antt =====
-- No call of the hub (internal/sse/hub.go) panics, and no buffer grows beyond its size.
use mathlib.Core.Path.{subst}
use routewerk.Prelude.{
  ℕ, ◌+◌, ◌≤◌, ◌≡◌, refl, sym, ap, ◌∙◌, inl, inr, String, Bool, true, false, not, List, [], ◌∷◌,
  ◌++◌, some, arith, ◌==◌, length, keep, All, All-append, All-imp, All-keep, Bool-cases,
}
use routewerk.Sse.Distinct.{IsDistinct, IsDistinct-append, keep-IsDistinct, removed-apart}
use routewerk.Sse.Hub.{
  Channel, Hub, update, new, close_channel, made, subscribe, is_entry, is_registered, unsubscribe,
  publish, close, received, receive, Call, subscribes, unsubscribes, publishes, receives, closes,
  perform, run,
}
use routewerk.Sse.Channels.{
  AreOpen, AreBounded, AreOpen-update, send_all-AreBounded, close_all-AreBounded,
}

module _ {F : Type 0} where
  pub record IsSafe (h : Hub F) : Type 0 where
    pub distinct : IsDistinct h.subscribers
    pub open_entries : AreOpen h.next h.channels h.subscribers
    pub bounded : AreBounded h.channels
    pub closed_empty : h.is_closed ≡ true → h.subscribers ≡ []

  new-IsSafe : IsSafe new
  new-IsSafe = record {
    distinct = tt;
    open_entries = tt;
    bounded = λ ch. omega arith;
    closed_empty = λ e. cc;
  }

  publish-IsSafe :
      (topic : String) (frame : F) (h : Hub F)
      → IsSafe h
      → (h' : Hub F) × (publish topic frame h ≡ some h') × IsSafe h'
  unfolding publish
  publish-IsSafe topic frame h s = elim (Bool-cases h.is_closed) [
    | inl c ↦ (h, ground (arith, c), s)
    | inr c ↦
        let (cs, q, b, k) =
          send_all-AreBounded h.next topic frame h.subscribers h.channels s.open_entries
            s.bounded in
        (
          record h { channels = cs },
          ground (arith, c, q),
          record {
            distinct = s.distinct;
            open_entries = All-imp _ _ (λ x o. (k x.1 ∙ o.0, o.1)) h.subscribers s.open_entries;
            bounded = b;
            closed_empty = s.closed_empty;
          },
        )
  ]

  close-IsSafe : (h : Hub F) → IsSafe h → (h' : Hub F) × (close h ≡ some h') × IsSafe h'
  unfolding close
  close-IsSafe h s = elim (Bool-cases h.is_closed) [
    | inl c ↦ (h, ground (arith, c), s)
    | inr c ↦
        let (cs, q, b) =
          close_all-AreBounded h.next h.subscribers h.channels s.distinct s.open_entries
            s.bounded in
        (
          record h { subscribers = []; is_closed = true; channels = cs },
          ground (arith, c, q),
          record { distinct = tt; open_entries = tt; bounded = b; closed_empty = λ e. refl },
        )
  ]

  received-keeps :
      (c : Channel F)
      → ((received c).is_closed ≡ c.is_closed) × (length (received c).buffer ≤ length c.buffer)
  received-keeps c = ground arith

  receive-IsSafe : (ch : ℕ) (h : Hub F) → IsSafe h → IsSafe (receive ch h)
  receive-IsSafe ch h s =
      let (same, shorter) = received-keeps (h.channels ch) in
      record {
        distinct = s.distinct;
        open_entries =
            All-imp _ _ (λ x o. (ground (arith, same, o.0), o.1)) h.subscribers s.open_entries;
        bounded = λ j. ground (arith, s.bounded j, s.bounded ch, shorter);
        closed_empty = s.closed_empty;
      }

  -- The numbers of the channels that are made stay apart from a new one.
  below-new :
      (n : ℕ) (channels : ℕ → Channel F) (entries : List (String × ℕ))
      → AreOpen n channels entries
      → All (λ (x : String × ℕ). (n == x.1) ≡ false) entries
  below-new n channels entries o = All-imp _ _ (λ x h. ground (arith, h.1)) entries o

  made-AreBounded : (closed : Bool) (h : Hub F) → IsSafe h → AreBounded (made closed h)
  made-AreBounded closed h s = λ j. ground (arith, s.bounded j)

  because_sound : (h h' : Hub F) → h ≡ h' → IsSafe h' → IsSafe h
  because_sound h h' e s = subst IsSafe (sym e) s

  subscribe-IsSafe : (topic : String) (h : Hub F) → IsSafe h → IsSafe (subscribe topic h).0
  unfolding subscribe
  subscribe-IsSafe topic h s =
      let apart = below-new h.next h.channels h.subscribers s.open_entries in
      elim (Bool-cases h.is_closed) [
        | inl c ↦
            because_sound (subscribe topic h).0
              (record h { channels = made true h; next = h.next + 1 }) (ground (arith, c))
              (record {
                distinct = s.distinct;
                open_entries =
                    AreOpen-update h.next (h.next + 1) h.next _ h.channels h.subscribers
                      (omega arith) apart s.open_entries;
                bounded = made-AreBounded true h s;
                closed_empty = s.closed_empty;
              })
        | inr c ↦
            because_sound (subscribe topic h).0
              (record h {
                subscribers = h.subscribers ++ (topic, h.next) ∷ [];
                channels = made false h;
                next = h.next + 1;
              })
              (ground (arith, c))
              (record {
                distinct = IsDistinct-append h.subscribers (topic, h.next) s.distinct apart;
                open_entries =
                    All-append _ h.subscribers ((topic, h.next) ∷ [])
                      (AreOpen-update h.next (h.next + 1) h.next _ h.channels h.subscribers
                        (omega arith) apart s.open_entries)
                      ((ground arith, omega arith), tt);
                bounded = made-AreBounded false h s;
                closed_empty = λ e. absurd (ground (arith, e, c));
              })
      ]

  registered-open :
      (topic : String) (ch n : ℕ) (channels : ℕ → Channel F) (entries : List (String × ℕ))
      → AreOpen n channels entries
      → is_registered topic ch entries ≡ true
      → (channels ch).is_closed ≡ false
  unfolding is_registered
  registered-open topic ch n channels [] o r = cc
  registered-open topic ch n channels (e ∷ rest) o r = elim (Bool-cases (is_entry topic ch e)) [
    | inl t ↦ ground (arith, t, o.0.0)
    | inr t ↦ registered-open topic ch n channels rest o.1 (ground (arith, r, t))
  ]

  unsubscribe-IsSafe :
      (topic : String) (ch : ℕ) (h : Hub F)
      → IsSafe h
      → (h' : Hub F) × (unsubscribe topic ch h ≡ some h') × IsSafe h'
  unfolding unsubscribe close_channel keep
  unsubscribe-IsSafe topic ch h s = elim (Bool-cases (is_registered topic ch h.subscribers)) [
    | inr r ↦ (h, ground (arith, r), s)
    | inl r ↦
        let left : List (String × ℕ) = keep (λ e. not (is_entry topic ch e)) h.subscribers in
        let o = registered-open topic ch h.next h.channels h.subscribers s.open_entries r in
        (
          record h {
            subscribers = left;
            channels = update h.channels ch (record (h.channels ch) { is_closed = true });
          },
          ground (arith, r, o),
          record {
            distinct = keep-IsDistinct _ h.subscribers s.distinct;
            open_entries =
                AreOpen-update h.next h.next ch _ h.channels left (omega arith)
                  (removed-apart ch topic h.subscribers s.distinct r)
                  (All-keep _ _ h.subscribers s.open_entries);
            bounded = λ j. ground (arith, s.bounded j, s.bounded ch);
            closed_empty = λ e. ap (keep (λ x. not (is_entry topic ch x))) (s.closed_empty e);
          },
        )
  ]

  perform-IsSafe :
      (c : Call F) (h : Hub F) → IsSafe h → (h' : Hub F) × (perform c h ≡ some h') × IsSafe h'
  perform-IsSafe (subscribes topic) h s = (_, refl, subscribe-IsSafe topic h s)
  perform-IsSafe (unsubscribes topic ch) h s = unsubscribe-IsSafe topic ch h s
  perform-IsSafe (publishes topic frame) h s = publish-IsSafe topic frame h s
  perform-IsSafe (receives ch) h s = (_, refl, receive-IsSafe ch h s)
  perform-IsSafe closes h s = close-IsSafe h s

  run-IsSafe_from :
      (calls : List (Call F)) (h : Hub F)
      → IsSafe h
      → (h' : Hub F) × (run calls h ≡ some h') × IsSafe h'
  unfolding run
  run-IsSafe_from [] h s = (h, refl, s)
  run-IsSafe_from (c ∷ calls) h s =
      let (h', e, s') = perform-IsSafe c h s in
      let (h'', e', s'') = run-IsSafe_from calls h' s' in (h'', ground (arith, e, e'), s'')

  -- Whatever is called on a new hub, in any order, nothing panics: no frame is sent to a closed channel
  -- and none is closed twice. Afterwards every registered channel is open and registered once, no
  -- buffer holds more than 16 frames, and a hub that is closed has no subscriber.
  pub run-IsSafe : (calls : List (Call F)) → (h : Hub F) × (run calls new ≡ some h) × IsSafe h
  run-IsSafe calls = run-IsSafe_from calls new new-IsSafe
