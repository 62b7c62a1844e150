-- ===== src/Mvc/Model.antt =====
-- src/mvc/model.c: the topic under which a model's event is published.
pub mod Topic
use wireless_tsn_configurato.Base.{ℕ, ◌-◌, Option, none, some, [], ◌++◌, length, List}
use wireless_tsn_configurato.Base.Text.{CString, codes}
use wireless_tsn_configurato.Common.{max_str}
use wireless_tsn_configurato.Common.StrUtil.{copied}
use wireless_tsn_configurato.Mvc.EventBus.{EventBus, Call, publish}

-- `htsn_model`; the bus may be NULL.
pub record Model (C U : Type 0) : Type 0 where
  pub name : CString
  pub bus : Option (EventBus C U)

-- `htsn_strlcpy(topic + strlen(topic), src, sizeof(topic) - strlen(topic))`
abbrev pub append_copied : CString → CString → CString
append_copied topic src = topic ++ copied (max_str - length topic) src

-- The topic that `htsn_model_notify_data` builds.
unfoldable pub event_topic : CString → CString → CString
event_topic name event = append_copied (append_copied (copied max_str name) (codes ".")) event

module _ {C U : Type 0} where
  -- `htsn_model_init`
  unfoldable pub init : CString → Option (EventBus C U) → Model C U
  init name bus = record { name = copied max_str name; bus = bus }

  -- `htsn_model_notify_data`: the callbacks that run. `htsn_model_notify` passes NULL data.
  unfoldable pub notify_data : {D : Type 0} → Model C U → Option CString → D → List (Call C U D)
  unfolding event_topic
  notify_data m none payload = []
  notify_data m (some event) payload = elim m.bus [
    | none ↦ []
    | some bus ↦ publish bus (some (event_topic m.name event)) payload
  ]

  unfoldable pub notify : {D : Type 0} → Model C U → Option CString → List (Call C U (Option D))
  unfolding notify_data
  notify m event = notify_data m event none
