-- ===== src/Tests/Messages.antt =====
-- Messages sent and received.
use gitabic.Base.{
  length-replicate, ℕ, ◌+◌, ◌^◌, ◌≡◌, List, [], ◌∷◌, ◌++◌, length, some, replicate, arith,
}
use gitabic.Bytes.{ok, bind}
use gitabic.Message.Frame.{Received, receive}
use gitabic.Message.Client.{ClientMessage, serialize_client, ask_ice}
use gitabic.Message.Client.Agreement.{ClientFits, hear, hear-serialize_client}
use gitabic.Message.Server.{ask_authorization, serialize_server}
use gitabic.Message.Server.Agreement.{receive-ask_authorization_torn}

abbrev asking : ClientMessage
asking = ask_ice 5 (97 ∷ 98 ∷ [])

hear-serialize_client_example :
    bind (serialize_client 0 asking) (λ bytes. hear (bytes ++ (1 ∷ []))) ≡ ok (some asking, 1 ∷ [])
hear-serialize_client_example =
    hear-serialize_client asking (1 ∷ []) (unfold ClientFits in (omega arith, omega arith))

abbrev long_info : List ℕ
long_info = replicate 65536 97

long_info-length : length long_info ≡ 65536
long_info-length = length-replicate {A = ℕ} 65536 97

receive-ask_authorization_torn_example :
    (m : Received) × (behind : List ℕ) × (receive
        (serialize_server 0 (ask_authorization long_info 2 5) ++ (1 ∷ []))
      ≡ ok (m, behind))
    × (length behind ≡ length {A = ℕ} (1 ∷ []) + 2 ^ 16)
receive-ask_authorization_torn_example =
    receive-ask_authorization_torn long_info 2 5 (1 ∷ []) (omega (arith, long_info-length))
      (omega (arith, long_info-length))
