-- ===== src/NodeBridge/Topics.antt =====
-- A node's topic names its device.
use sumpnet.Prelude.{ℕ, ◌≡◌, refl, ap, ◌∙◌, true, false, List, [], ◌∷◌, ◌++◌, some, arith, ◌==◌}
use sumpnet.Ingest.Convert.{to_lower, is_dev_eui, all_hex}
use sumpnet.NodeBridge.{
  topic, slash, sumpnet_word, v1_word, up_word, split, cons_head, same_word, device_of, parse_topic,
}

split_word : (w rest : List ℕ) → all_hex w ≡ true → split (w ++ slash ∷ rest) ≡ w ∷ split rest
unfolding split
split_word [] rest h = refl
split_word (c ∷ w) rest h =
    let other : (c == slash) ≡ false = ground arith in
    let more : all_hex w ≡ true = ground arith in
    rw other (ap (cons_head c) (split_word w rest more))

-- ParseTopic finds in the topic of a device, whose id in lower case has sixteen hexadecimal digits,
-- that id in lower case.
pub parse_topic-topic :
    (dev : List ℕ)
    → is_dev_eui (to_lower dev) ≡ true
    → parse_topic (topic dev) ≡ some (to_lower dev)
unfolding parse_topic topic split device_of same_word
parse_topic-topic dev h =
    let hex : all_hex (to_lower dev) ≡ true = ground arith in
    ap (λ ws. device_of (sumpnet_word ∷ v1_word ∷ ws)) (split_word (to_lower dev) up_word hex)
    ∙ rw h refl
