-- ===== src/Mvc/Model/Topic.antt =====
-- The topics of a model's events, and who receives them.
use mathlib.Core.List.{append_assoc}
use wireless_tsn_configurato.Base.{
  ◌+◌, ◌-◌, ◌<◌, ◌≡◌, refl, true, [], ◌∷◌, ◌++◌, arith, length, length-append,
}
use wireless_tsn_configurato.Base.Text.{CString, codes}
use wireless_tsn_configurato.Common.{max_str}
use wireless_tsn_configurato.Common.StrUtil.{copied, starts_with}
use wireless_tsn_configurato.Common.StrUtil.Copy.{copied_of_lt, length-copied, copied-copied}
use wireless_tsn_configurato.Mvc.EventBus.Delivery.{reaches}
use wireless_tsn_configurato.Mvc.Model.{append_copied, event_topic}

length-append_copied :
    (topic src : CString) → length topic < max_str → length (append_copied topic src) < max_str
length-append_copied topic src h = omega (
  arith,
  length-append topic (copied (max_str - length topic) src),
  length-copied (max_str - length topic) src (omega arith),
)

-- A topic always fits its buffer of 256 bytes; where name, dot and event fit together it is
-- "name.event".
pub event_topic_lem :
    (name event : CString)
    → (length (event_topic name event) < max_str)
      × (length name + length event + 1 < max_str
          → event_topic name event ≡ name ++ (codes "." ++ event))
unfolding event_topic
event_topic_lem name event = (
  length-append_copied (append_copied (copied max_str name) (codes ".")) event (
      length-append_copied (copied max_str name) (codes ".")
        (length-copied max_str name (omega arith))),
  λ (h : length name + length event + 1 < max_str). rw (
    copied_of_lt max_str name (omega arith),
    copied_of_lt (max_str - length name) (codes ".") (omega arith),
    copied_of_lt (max_str - length (name ++ codes ".")) event
        (omega (arith, length-append name (codes "."))),
    append_assoc name (codes ".") event,
  ),
)

pub starts_with-append : (s t : CString) → starts_with (s ++ t) s ≡ true
unfolding starts_with
starts_with-append [] [] = refl
starts_with-append [] (c ∷ t) = refl
starts_with-append (c ∷ s) t = ground (arith, starts_with-append s t)

-- Whoever subscribes to a model by its name receives each of its events.
pub event_topic-reaches :
    (name event : CString) → reaches (event_topic (copied max_str name) event) name ≡ true
unfolding event_topic
event_topic-reaches name event =
    let start = copied max_str name in
    let dot = copied (max_str - length start) (codes ".") in
    let rest = copied (max_str - length (start ++ dot)) event in
    let whole : starts_with ((start ++ dot) ++ rest) start ≡ true =
      rw (append_assoc start dot rest) (starts_with-append start (dot ++ rest)) in
    rw (copied-copied max_str name (omega arith)) (rw whole)
