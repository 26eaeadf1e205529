-- ===== src/Sse/Hub.antt =====
-- Hub (internal/sse/hub.go). A channel is its number: `next` is that of the next one to be made. The
-- map from topics to sets of channels is the list of its pairs, since no topic keeps an empty set. A
-- method is one step, under the lock of the hub (two calls of Publish, which can share it, are taken one
-- after the other); `none` is a panic: to send on a channel that is closed, or to close one again. A
-- subscriber receives what its channel holds, oldest frame first.
use routewerk.Prelude.{
  ℕ, ◌+◌, String, str_eq, Bool, true, false, not, ◌&&◌, ◌||◌, List, [], ◌∷◌, ◌++◌, Option, none,
  some, ltb, ◌==◌, length, keep, count, if◌then◌else◌,
}

-- SubscriberBufferSize
abbrev pub subscriber_buffer_size : ℕ
subscriber_buffer_size = 16

pub record Channel (F : Type 0) : Type 0 where
  pub buffer : List F
  pub is_closed : Bool

pub record Hub (F : Type 0) : Type 0 where
  pub subscribers : List (String × ℕ)
  pub is_closed : Bool
  pub channels : ℕ → Channel F
  pub next : ℕ

abbrev pub update {ℓ} : {A : Type ℓ} → (ℕ → A) → ℕ → A → ℕ → A
update f i a j = if i == j then a else f j

abbrev pub is_entry : String → ℕ → String × ℕ → Bool
is_entry topic ch e = str_eq e.0 topic && (e.1 == ch)

unfoldable pub is_registered : String → ℕ → List (String × ℕ) → Bool
is_registered topic ch [] = false
is_registered topic ch (e ∷ rest) =
    let later = is_registered topic ch rest in is_entry topic ch e || later

module _ {F : Type 0} where
  -- New
  abbrev pub new : Hub F
  new = record {
    subscribers = [];
    is_closed = false;
    channels = λ ch. record { buffer = []; is_closed = false };
    next = 0;
  }

  -- `close(ch)`
  unfoldable pub close_channel : ℕ → (ℕ → Channel F) → Option (ℕ → Channel F)
  close_channel ch channels =
      if (channels ch).is_closed
      then none
      else some (update channels ch (record (channels ch) { is_closed = true }))

  -- `select { case ch <- frame: default: }`
  unfoldable pub send : ℕ → F → (ℕ → Channel F) → Option (ℕ → Channel F)
  send ch frame channels =
      if (channels ch).is_closed
      then none
      else if ltb (length (channels ch).buffer) subscriber_buffer_size
      then some (
          update channels ch (record (channels ch) { buffer = (channels ch).buffer ++ frame ∷ [] }))
      else some channels

  abbrev pub made : Bool → Hub F → ℕ → Channel F
  made closed h = update h.channels h.next (record { buffer = []; is_closed = closed })

  -- Subscribe: the hub, and the number of the channel.
  unfoldable pub subscribe : String → Hub F → Hub F × ℕ
  subscribe topic h =
      if h.is_closed then (record h { channels = made true h; next = h.next + 1 }, h.next) else (
        record h {
          subscribers = h.subscribers ++ (topic, h.next) ∷ [];
          channels = made false h;
          next = h.next + 1;
        },
        h.next,
      )

  -- The function that Subscribe returns beside the channel; after a Close it finds nothing.
  unfoldable pub unsubscribe : String → ℕ → Hub F → Option (Hub F)
  unsubscribe topic ch h =
      if is_registered topic ch h.subscribers
      then elim (close_channel ch h.channels) [
        | none ↦ none
        | some channels ↦ some (record h {
          subscribers = keep (λ e. not (is_entry topic ch e)) h.subscribers;
          channels = channels;
        })
      ]
      else some h

  -- The loop of Publish.
  unfoldable pub send_all :
      String → F → List (String × ℕ) → (ℕ → Channel F) → Option (ℕ → Channel F)
  send_all topic frame [] channels = some channels
  send_all topic frame (e ∷ rest) channels =
      if str_eq e.0 topic
      then elim (send e.1 frame channels) [
        | none ↦ none
        | some channels' ↦ send_all topic frame rest channels'
      ]
      else send_all topic frame rest channels

  unfoldable pub publish : String → F → Hub F → Option (Hub F)
  publish topic frame h =
      if h.is_closed then some h else elim (send_all topic frame h.subscribers h.channels) [
        | none ↦ none
        | some channels ↦ some (record h { channels = channels })
      ]

  abbrev pub subscriber_count : String → Hub F → ℕ
  subscriber_count topic h = count (λ e. str_eq e.0 topic) h.subscribers

  -- The loops of Close.
  unfoldable pub close_all : List (String × ℕ) → (ℕ → Channel F) → Option (ℕ → Channel F)
  close_all [] channels = some channels
  close_all (e ∷ rest) channels = elim (close_channel e.1 channels) [
    | none ↦ none
    | some channels' ↦ close_all rest channels'
  ]

  unfoldable pub close : Hub F → Option (Hub F)
  close h = if h.is_closed then some h else elim (close_all h.subscribers h.channels) [
    | none ↦ none
    | some channels ↦ some (record h { subscribers = []; is_closed = true; channels = channels })
  ]

  -- A subscriber takes the oldest frame, if there is one.
  abbrev pub received : Channel F → Channel F
  received c = elim c.buffer [ [] ↦ c | _ ∷ rest ↦ record c { buffer = rest } ]

  abbrev pub receive : ℕ → Hub F → Hub F
  receive ch h = record h { channels = update h.channels ch (received (h.channels ch)) }

-- A call of the hub, or a receive.
pub data Call (F : Type 0) : Type 0 where
  subscribes : String → Call F
  unsubscribes : String → ℕ → Call F
  publishes : String → F → Call F
  receives : ℕ → Call F
  closes : Call F

module _ {F : Type 0} where
  abbrev pub perform : Call F → Hub F → Option (Hub F)
  perform (subscribes topic) h = some (subscribe topic h).0
  perform (unsubscribes topic ch) h = unsubscribe topic ch h
  perform (publishes topic frame) h = publish topic frame h
  perform (receives ch) h = some (receive ch h)
  perform closes h = close h

  -- The calls in order.
  unfoldable pub run : List (Call F) → Hub F → Option (Hub F)
  run [] h = some h
  run (c ∷ calls) h = elim (perform c h) [ none ↦ none | some h' ↦ run calls h' ]
