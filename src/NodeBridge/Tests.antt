-- ===== src/NodeBridge/Tests.antt =====
-- The theorem on topics, applied to a device id in upper case.
use sumpnet.Prelude.{ℕ, ◌≡◌, refl, List, [], ◌∷◌, some}
use sumpnet.Ingest.Convert.{to_lower}
use sumpnet.NodeBridge.{topic, parse_topic}
use sumpnet.NodeBridge.Topics.{parse_topic-topic}

-- "70B3D57ED0000001"
abbrev upper_eui : List ℕ
upper_eui = 55 ∷ 48 ∷ 66 ∷ 51 ∷ 68 ∷ 53 ∷ 55 ∷ 69 ∷ 68 ∷ 48 ∷ 48 ∷ 48 ∷ 48 ∷ 48 ∷ 48 ∷ 49 ∷ []

parse_topic-topic_example : parse_topic (topic upper_eui) ≡ some (to_lower upper_eui)
parse_topic-topic_example = parse_topic-topic upper_eui refl
