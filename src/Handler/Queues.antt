-- ===== src/Handler/Queues.antt =====
-- Which queue a message is put in, and that what is queued can be handled
-- (Peer/Torrent/TorrentFileHandler, Peer/Torrent/TorrentManager).
use gitabic.Base.{
  ℕ, ◌⊎◌, ◌≡◌, inl, inr, refl, sym, ap, ◌∙◌, true, false, ◌==◌, if◌then◌else◌, Bool-cases,
  Option-cases, List, [], ◌∷◌, ◌++◌, Option, none, some, lookup, insert, lookup-insert, arith,
}
use gitabic.Bytes.{ok}
use gitabic.Bytes.Ensures.{bind-eq_ok}
use gitabic.Message.Frame.{Received}
use gitabic.Message.Torrent.{TorrentBase, deserialize_torrent}
use gitabic.Handler.{
  HandlerState, RequestKind, ResponseKind, request_kind, response_kind, is_request, is_response,
  add_message,
}
use gitabic.Handler.Dispatch.{route_message, handle_message}

-- The handler after the message: it stands at the end of one queue, of which the thread that empties
-- it has a case for the message's code.
abbrev pub IsQueued : ℕ → Received → HandlerState → HandlerState → Type 0
IsQueued sender msg h h' =
    ((k : RequestKind) × (request_kind msg.code ≡ some k)
      × (h' ≡ record h { received_requests = h.received_requests ++ ((sender, msg) ∷ []) }))
    ⊎ ((k : ResponseKind) × (response_kind msg.code ≡ some k)
        × (h' ≡ record h { received_responses = h.received_responses ++ ((sender, msg) ∷ []) }))

request_kind-none : (code : ℕ) → request_kind code ≡ none → is_request code ≡ false
unfolding is_request request_kind
request_kind-none code e = ground (arith, e)

response_kind-none : (code : ℕ) → response_kind code ≡ none → is_response code ≡ false
unfolding is_response response_kind
response_kind-none code e = ground (arith, e)

request_kind-some :
    (code : ℕ) → is_request code ≡ true → (k : RequestKind) × (request_kind code ≡ some k)
request_kind-some code h = elim (Option-cases (request_kind code)) [
  | inl e ↦ cc (request_kind-none code e)
  | inr found ↦ found
]

response_kind-some :
    (code : ℕ) → is_response code ≡ true → (k : ResponseKind) × (response_kind code ≡ some k)
response_kind-some code h = elim (Option-cases (response_kind code)) [
  | inl e ↦ cc (response_kind-none code e)
  | inr found ↦ found
]

add_message-IsQueued :
    (sender : ℕ) (msg : Received) (h h' : HandlerState)
    → add_message sender msg h ≡ ok h'
    → IsQueued sender msg h h'
unfolding add_message
add_message-IsQueued sender msg h h' e = elim (Bool-cases (is_request msg.code)) [
  | inl r ↦ let (k, kind) = request_kind-some msg.code r in inl (k, kind, ground (arith, e, r))
  | inr n ↦ elim (Bool-cases (is_response msg.code)) [
    | inl r ↦
        let (k, kind) = response_kind-some msg.code r in inr (k, kind, ground (arith, e, n, r))
    | inr m ↦ absurd (ground (arith, e, n, m))
  ]
]

route_message-IsQueued :
    (sender : ℕ) (msg : Received) (file : ℕ) (found : Option HandlerState)
    (handlers handlers' : List (ℕ × HandlerState))
    → route_message sender msg file found handlers ≡ ok handlers'
    → (h : HandlerState) × (h' : HandlerState) × (found ≡ some h)
      × IsQueued sender msg h h'
      × ((q : ℕ) → lookup q handlers' ≡ (if file == q then some h' else lookup q handlers))
unfolding route_message
route_message-IsQueued sender msg file none handlers handlers' e = cc
route_message-IsQueued sender msg file (some h) handlers handlers' e =
    let (h', e1, e2) = bind-eq_ok (add_message sender msg h) _ handlers' e in
    let same : insert file h' handlers ≡ handlers' = cc in
    (
      h,
      h',
      refl,
      add_message-IsQueued sender msg h h' e1,
      λ q. ap (lookup q) (sym same) ∙ lookup-insert file q h' handlers,
    )

-- A message that TorrentManager accepts is long enough for its base and names a file that has a handler.
-- It is put at the end of one queue of that handler, and the thread of that queue has a case for its
-- code, so that it will not throw over an unknown code; the handlers of all other files stay as they
-- were.
pub handle_message-IsQueued :
    (sender : ℕ) (msg : Received) (handlers handlers' : List (ℕ × HandlerState))
    → handle_message sender msg handlers ≡ ok handlers'
    → (b : TorrentBase × List ℕ) × (h : HandlerState) × (h' : HandlerState) × (deserialize_torrent
          msg.code msg.payload
        ≡ ok b)
      × (lookup b.0.file_id handlers ≡ some h)
      × IsQueued sender msg h h'
      × ((q : ℕ) → lookup q handlers' ≡ (if b.0.file_id == q then some h' else lookup q handlers))
unfolding handle_message
handle_message-IsQueued sender msg handlers handlers' e =
    let (b, e1, e2) = bind-eq_ok (deserialize_torrent msg.code msg.payload) _ handlers' e in
    let (h, h', found, queued, others) =
      route_message-IsQueued sender msg b.0.file_id (lookup b.0.file_id handlers) handlers handlers'
        e2 in
    (b, h, h', e1, found, queued, others)
