-- ===== src/Agent/Networks/Spec.antt =====
-- The list of networks as esp32-agent/components/htsn_agent/htsn_cfg.c means it: the oldest entry
-- first.
use wireless_tsn_configurato.Base.{
  Bool, false, ◌||◌, Option, List, [], ◌∷◌, ◌++◌, leb, if◌then◌else◌, length, drop,
}
use wireless_tsn_configurato.Base.Text.{CString, is_empty, str_eq}
use wireless_tsn_configurato.Common.StrUtil.{copied}
use wireless_tsn_configurato.Agent.Nvs.{Network}
use wireless_tsn_configurato.Agent.Networks.{net_max, or_empty}

unfoldable pub listed : CString → List Network → Bool
listed ssid [] = false
listed ssid (e ∷ ns) = str_eq e.ssid ssid || listed ssid ns

-- The list with the password of a name that is listed.
unfoldable pub with_pass : CString → CString → List Network → List Network
with_pass ssid pass [] = []
with_pass ssid pass (e ∷ ns) =
    let rest = with_pass ssid pass ns in
    if str_eq e.ssid ssid then record e { pass = copied 65 pass } ∷ ns else e ∷ rest

-- The list without the networks of a name.
unfoldable pub without : CString → List Network → List Network
without ssid [] = []
without ssid (e ∷ ns) = if str_eq e.ssid ssid then without ssid ns else e ∷ without ssid ns

abbrev pub entry : CString → CString → Network
entry ssid pass = record { ssid = copied 33 ssid; pass = copied 65 pass }

-- A new name is put last; the oldest entry makes room for it where the list is full.
unfoldable pub added : CString → CString → List Network → List Network
unfolding listed with_pass
added ssid pass ns =
    if listed ssid ns
    then with_pass ssid pass ns
    else (if leb net_max (length ns) then drop 1 ns else ns) ++ (entry ssid pass ∷ [])

-- What is done with the list: `htsn_cfg_net_add`, `htsn_cfg_net_remove` and `htsn_cfg_net_clear`.
pub data Op : Type 0 where
  add : CString → Option CString → Op
  remove : CString → Op
  clear : Op

-- A name that is empty is none.
unfoldable pub after : Op → List Network → List Network
unfolding added without
after (add ssid pass) ns = if is_empty ssid then ns else added ssid (or_empty pass) ns
after (remove ssid) ns = if is_empty ssid then ns else without ssid ns
after clear ns = []

unfoldable pub after_all : List Op → List Network → List Network
unfolding after
after_all [] ns = ns
after_all (op ∷ ops) ns = after_all ops (after op ns)
