-- ===== src/Socket/Mailbox.antt =====
-- TCPSocket::receive as a mailbox: one list of messages, from which a thread takes the first that is
-- relevant to it (Peer/NetworkUnit/ServerComm/TCPSocket/TCPSocket.cpp).
use gitabic.Base.{
  ℕ, zero, suc, ◌^◌, ◌<◌, ◌≤◌, ◌≡◌, refl, sym, ap, ◌∙◌, subst, Bool, true, false, le→ltb, ◌==◌,
  Bool-cases, Option-cases, inl, inr, List, [], ◌∷◌, ◌++◌, append_assoc, length, length-append,
  Option, none, some, All, arith,
}
use gitabic.Bytes.{ok, bind, Reader, le, read_le, read_bytes}
use gitabic.Bytes.RoundTrip.{length-le, read_le-le, read_bytes-append}
use gitabic.Message.Frame.{Received, serialize_base}
use gitabic.Socket.{
  SocketState, recv, receive_message, pick, sort_message, read_turn, receive_turn, after_turn,
  receive,
}

-- A message as `MessageBaseToSend::serialize` sends it, and that it fits the frame.
unfoldable pub frame : Received → List ℕ
frame m = serialize_base m.code (length m.payload) ++ m.payload

pub record Fits (m : Received) : Type 0 where
  pub code_fits : m.code < 256
  pub size_fits : length m.payload < 2 ^ 32

unfoldable pub frames : List Received → List ℕ
unfolding frame
frames [] = []
frames (m ∷ ms) = frame m ++ frames ms

recv-eq {ℓ} :
    {A : Type ℓ} (n : ℕ) (read : Reader A) (bytes : List ℕ)
    → n ≤ length bytes
    → recv n read bytes ≡ read bytes
unfolding recv
recv-eq n read bytes h = rw (le→ltb _ _ h)

recv-le :
    (n x : ℕ) (rest : List ℕ) → x < 256 ^ n → recv n (read_le n) (le n x ++ rest) ≡ ok (x, rest)
recv-le n x rest h =
    recv-eq n (read_le n) (le n x ++ rest)
      (omega (arith, length-append (le n x) rest, length-le n x))
    ∙ read_le-le n x rest h

recv-payload :
    (payload rest : List ℕ)
    → recv (length payload) (read_bytes (length payload)) (payload ++ rest) ≡ ok (payload, rest)
recv-payload payload rest =
    recv-eq (length payload) (read_bytes (length payload)) (payload ++ rest)
      (omega (arith, length-append payload rest))
    ∙ read_bytes-append payload rest

-- A frame at the front of the stream is received as it was sent.
receive_message-frame :
    (m : Received) (rest : List ℕ) → Fits m → receive_message (frame m ++ rest) ≡ ok (m, rest)
unfolding receive_message frame serialize_base
receive_message-frame m rest fits = simp (
  append_assoc,
  recv-le 1 m.code _ fits.code_fits,
  recv-le 4 (length m.payload) _ fits.size_fits,
  recv-payload m.payload,
)

length-frame : (m : Received) → 1 ≤ length (frame m)
unfolding frame serialize_base
length-frame m = omega (
  arith,
  length-append (le 1 m.code ++ le 4 (length m.payload)) m.payload,
  length-append (le 1 m.code) (le 4 (length m.payload)),
  length-le 1 m.code,
)

length-frames : (ms : List Received) → length ms ≤ length (frames ms)
unfolding frames
length-frames [] = omega arith
length-frames (m ∷ ms) =
    omega (arith, length-append (frame m) (frames ms), length-frame m, length-frames ms)

-- The socket holds these messages: those in the queue, then those on their way, frame by frame.
pub record HoldsMail (s : SocketState) (all : List Received) : Type 0 where
  pub coming : List Received
  pub framed : s.stream ≡ frames coming
  pub fitting : All Fits coming
  pub order : all ≡ s.messages ++ coming

module _ (p : ℕ → Bool) where
  -- What is picked from two lists, one behind the other.
  pick-append :
      (xs ys : List Received) (x : Received)
      → (pick p xs).0 ≡ some x
      → pick p (xs ++ ys) ≡ (some x, (pick p xs).1 ++ ys)
  unfolding pick
  pick-append [] ys x e = cc
  pick-append (m ∷ xs) ys x e = elim (Bool-cases (p m.code)) [
    | inl yes_p ↦
        let same : some m ≡ some x = rw yes_p at e in rw yes_p (ap (λ o. (o, xs ++ ys)) same)
    | inr no_p ↦
        let deeper : (pick p xs).0 ≡ some x = rw no_p at e in
        rw no_p (ap (λ r. (r.0, m ∷ r.1)) (pick-append xs ys x deeper))
  ]

  pick-append-none :
      (xs ys : List Received)
      → (pick p xs).0 ≡ none
      → pick p (xs ++ ys) ≡ ((pick p ys).0, xs ++ (pick p ys).1)
  unfolding pick
  pick-append-none [] ys e = refl
  pick-append-none (m ∷ xs) ys e = elim (Bool-cases (p m.code)) [
    | inl yes_p ↦ let same : some m ≡ none = rw yes_p at e in cc
    | inr no_p ↦
        let deeper : (pick p xs).0 ≡ none = rw no_p at e in
        rw no_p (ap (λ r. (r.0, m ∷ r.1)) (pick-append-none xs ys deeper))
  ]

  empty :
      (xs : List Received)
      → ◌≡◌ {A = Option Received × List Received}
          ((pick p []).0, xs ++ (pick p []).1)
          (none, xs ++ [])
  unfolding pick
  empty xs = refl

  abbrev holding : List Received → List Received → SocketState
  holding messages coming = record { messages = messages; stream = frames coming }

  abbrev ReceivedFrom : ℕ → SocketState → List Received → Type 0
  ReceivedFrom fuel s all =
      (t : SocketState) × (receive fuel p s ≡ ok ((pick p all).0, t)) × HoldsMail t (pick p all).1

  -- With nothing relevant in the queue and nothing on its way, the loop waits.
  receive_idle :
      (fuel : ℕ) (messages : List Received)
      → (pick p messages).0 ≡ none
      → receive fuel p (holding messages []) ≡ ok (none, holding messages [])
  unfolding receive receive_turn read_turn frames
  receive_idle zero messages e = refl
  receive_idle (suc fuel) messages e = rw e (receive_idle fuel messages e)

  turn_picks :
      (s : SocketState) (x : Received)
      → (pick p s.messages).0 ≡ some x
      → receive_turn p s ≡ ok (some x, record s { messages = (pick p s.messages).1 })
  unfolding receive_turn pick
  turn_picks s x e = rw (receive_turn, e)

  turn_queued :
      (fuel : ℕ) (s : SocketState) (x : Received)
      → (pick p s.messages).0 ≡ some x
      → receive (suc fuel) p s ≡ ok (some x, record s { messages = (pick p s.messages).1 })
  unfolding receive after_turn
  turn_queued fuel s x e = ap (λ o. bind o (after_turn (receive fuel p))) (turn_picks s x e)

  turn_read :
      (fuel : ℕ) (messages coming : List Received) (m : Received)
      → (pick p messages).0 ≡ none
      → Fits m
      → receive (suc fuel) p (holding messages (m ∷ coming))
        ≡ after_turn (receive fuel p) (sort_message p (m, frames coming) messages)
  unfolding receive receive_turn read_turn frames
  turn_read fuel messages coming m e fits =
      let more : (length (frame m ++ frames coming) == 0) ≡ false =
        ground (arith, length-append (frame m) (frames coming), length-frame m) in
      rw (e, more, receive_message-frame m (frames coming) fits)

  after_some :
      (fuel : ℕ) (m : Received) (s : SocketState)
      → after_turn (receive fuel p) (some m, s) ≡ ok (some m, s)
  unfolding after_turn
  after_some fuel m s = refl

  lem_idle :
      (fuel : ℕ) (messages : List Received)
      → (pick p messages).0 ≡ none
      → ReceivedFrom fuel (holding messages []) (messages ++ [])
  lem_idle fuel messages e =
      let whole : pick p (messages ++ []) ≡ (none, messages ++ []) =
        pick-append-none messages [] e ∙ empty messages in
      let after : SocketState = holding messages [] in
      (
        after,
        receive_idle fuel messages e ∙ ap (λ r. ok (r.0, after)) (sym whole),
        record { coming = []; framed = refl; fitting = tt; order = ap (λ r. r.1) whole },
      )

  lem_later :
      (fuel : ℕ) (messages coming : List Received) (m : Received)
      → Fits m
      → (pick p messages).0 ≡ none
      → p m.code ≡ false
      → ReceivedFrom fuel (holding (messages ++ (m ∷ [])) coming) ((messages ++ (m ∷ [])) ++ coming)
      → ReceivedFrom (suc fuel) (holding messages (m ∷ coming)) (messages ++ (m ∷ coming))
  unfolding sort_message after_turn
  lem_later fuel messages coming m fits e unwanted next =
      let whole : (messages ++ (m ∷ [])) ++ coming ≡ messages ++ (m ∷ coming) =
        append_assoc messages (m ∷ []) coming in
      let sorted : sort_message p (m, frames coming) messages
          ≡ (none, holding (messages ++ (m ∷ [])) coming) =
        rw unwanted in
      let (t, run, held) =
        subst (ReceivedFrom fuel (holding (messages ++ (m ∷ [])) coming)) whole next in
      (
        t,
        turn_read fuel messages coming m e fits ∙ ap (after_turn (receive fuel p)) sorted ∙ run,
        held,
      )

  lem_queued :
      (fuel : ℕ) (messages coming : List Received) (x : Received)
      → All Fits coming
      → (pick p messages).0 ≡ some x
      → ReceivedFrom (suc fuel) (holding messages coming) (messages ++ coming)
  lem_queued fuel messages coming x fits e =
      let split = pick-append messages coming x e in
      let after : SocketState = record { messages = (pick p messages).1; stream = frames coming } in
      (
        after,
        turn_queued fuel (holding messages coming) x e ∙ ap (λ r. ok (r.0, after)) (sym split),
        record { coming = coming; framed = refl; fitting = fits; order = ap (λ r. r.1) split },
      )

  lem_relevant :
      (fuel : ℕ) (messages coming : List Received) (m : Received)
      → All Fits (m ∷ coming)
      → (pick p messages).0 ≡ none
      → p m.code ≡ true
      → ReceivedFrom (suc fuel) (holding messages (m ∷ coming)) (messages ++ (m ∷ coming))
  unfolding pick sort_message
  lem_relevant fuel messages coming m fits e wanted =
      let split = pick-append-none messages (m ∷ coming) e in
      let after : SocketState = holding messages coming in
      let here : pick p (m ∷ coming) ≡ (some m, coming) = rw wanted in
      let whole : pick p (messages ++ (m ∷ coming)) ≡ (some m, messages ++ coming) =
        split ∙ ap (λ r. (r.0, messages ++ r.1)) here in
      let sorted : sort_message p (m, frames coming) messages ≡ (some m, after) = rw wanted in
      (
        after,
        turn_read fuel messages coming m e fits.0
            ∙ ap (after_turn (receive fuel p)) sorted
            ∙ after_some fuel m after
            ∙ ap (λ r. ok (r.0, after)) (sym whole),
        record { coming = coming; framed = refl; fitting = fits.1; order = ap (λ r. r.1) whole },
      )

  receive_lem :
      (fuel : ℕ) (messages coming : List Received)
      → All Fits coming
      → length coming < fuel
      → ReceivedFrom fuel (holding messages coming) (messages ++ coming)
  receive_lem zero messages coming fits h = absurd (omega arith)
  receive_lem (suc fuel) messages [] fits h = elim (Option-cases (pick p messages).0) [
    | inr (x, e) ↦ lem_queued fuel messages [] x tt e
    | inl e ↦ lem_idle (suc fuel) messages e
  ]
  receive_lem (suc fuel) messages (m ∷ coming) fits h = elim (Option-cases (pick p messages).0) [
    | inr (x, e) ↦ lem_queued fuel messages (m ∷ coming) x fits e
    | inl e ↦ elim (Bool-cases (p m.code)) [
      | inl wanted ↦ lem_relevant fuel messages coming m fits e wanted
      | inr unwanted ↦
          lem_later fuel messages coming m fits.0 e unwanted
            (receive_lem fuel (messages ++ (m ∷ [])) coming fits.1 (omega arith))
    ]
  ]

-- A socket holds mail: its queue, then what has come in frames that fit. After more turns than there are
-- bytes on the stream, receive has the first message of that list that is relevant, or still waits if
-- there is none; and what the socket holds is the list without that message, in the same order, so that
-- no message is lost to another thread.
pub receive-HoldsMail :
    (fuel : ℕ) (p : ℕ → Bool) (s : SocketState) (all : List Received)
    → HoldsMail s all
    → length s.stream < fuel
    → (t : SocketState) × (receive fuel p s ≡ ok ((pick p all).0, t)) × HoldsMail t (pick p all).1
receive-HoldsMail fuel p s all h more =
    let same : s ≡ holding p s.messages h.coming =
      ap (λ b. record { messages = s.messages; stream = b }) h.framed in
    let enough : length h.coming < fuel =
      omega (arith, more, ap length h.framed, length-frames h.coming) in
    let (t, run, held) = receive_lem p fuel s.messages h.coming h.fitting enough in
    (
      t,
      ap (receive fuel p) same ∙ run ∙ ap (λ l. ok ((pick p l).0, t)) (sym h.order),
      subst (λ l. HoldsMail t (pick p l).1) (sym h.order) held,
    )
