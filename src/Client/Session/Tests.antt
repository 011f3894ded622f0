-- ===== src/Client/Session/Tests.antt =====
-- The theorems on the session at concrete inputs.
use socket_to_ciphertext.Prelude.{◌≡◌, refl, true, none, some, [], ◌∷◌, ◌++◌, arith}
use socket_to_ciphertext.Client.State.{ConnectionState}
use socket_to_ciphertext.Client.Connection
use socket_to_ciphertext.Client.Connection.{Connection}
use socket_to_ciphertext.Client.Session.{
  welcomed, refused, unreachable, hung_up, Session, fresh, watch_all,
}
use socket_to_ciphertext.Client.Session.Recovery.{
  lost, Searching, Recovered, watch_all-live, watch_all-hung_up,
}

abbrev online : Connection
online = record Connection.fresh { machine = record { state = ConnectionState.online; seen = [] } }

-- The connection was lost, and the session still has it.
abbrev broken : Connection
broken = record online { machine = record { state = ConnectionState.retrying; seen = [] } }

abbrev lost_one : Session
lost_one = record fresh { connection = some broken; supervised = true }

lost_one-Searching : Searching lost_one
lost_one-Searching = record { supervised = refl; going = refl; nothing = lost broken refl }

watch_all-live_example :
    Recovered lost_one
      (watch_all lost_one ((unreachable ∷ refused ∷ []) ++ welcomed online ∷ []))
      online
watch_all-live_example =
    watch_all-live lost_one (unreachable ∷ refused ∷ []) online lost_one-Searching
      (refl, (refl, tt)) (omega arith) refl

watch_all-hung_up_example : (watch_all lost_one (hung_up ∷ welcomed online ∷ [])).connection ≡ none
watch_all-hung_up_example =
    watch_all-hung_up lost_one (welcomed online ∷ []) lost_one-Searching (omega arith)
