-- ===== src/Runtime/AgentConfig/Examples.antt =====
-- A configuration with a peer, a service and inbound authentication.
use docsclaw.Base.{Str, bytes, ◌==◌, some, ok, ◌∷◌, [], All, IsDistinct, ◌≡◌, true, refl}
use docsclaw.Peers.Card.{ecdsa_key, load_card_public_key}
use docsclaw.Text.{trim_space}
use docsclaw.Runtime.AgentConfig.{A2aPeer, AgentConfig, is_service_name, load_agent_config}
use docsclaw.Runtime.AgentConfig.Checked.{IsCompleteAuth, load_agent_config-IsChecked}
use docsclaw.Runtime.AgentConfig.Peers.{IsCheckedPeer, HasCardKey, IsHttpUrl}
use docsclaw.Runtime.Samples.{peer, agent_config, config_codec, directory}

abbrev pub loaded_peer : A2aPeer
loaded_peer = record peer { card_key = some (ecdsa_key true (bytes "pem")) }

abbrev pub loaded : AgentConfig
loaded = record agent_config { a2a_peers = loaded_peer ∷ [] }

is_loaded : load_agent_config config_codec directory (bytes "/c") ≡ ok (some loaded)
unfolding load_agent_config load_card_public_key trim_space bytes ◌==◌
is_loaded = refl

load_agent_config-IsChecked_example :
    All (IsCheckedPeer config_codec) (loaded_peer ∷ [])
    × All (HasCardKey config_codec (bytes "/c")) (loaded_peer ∷ [])
    × IsDistinct (bytes "reviewer" ∷ [])
    × All
        (λ (s : Str × Str). (is_service_name s.0 ≡ true) × IsHttpUrl config_codec s.1)
        ((bytes "hr", bytes "http://hr") ∷ [])
    × IsCompleteAuth config_codec loaded.inbound_auth
load_agent_config-IsChecked_example =
    load_agent_config-IsChecked config_codec directory (bytes "/c") loaded is_loaded
