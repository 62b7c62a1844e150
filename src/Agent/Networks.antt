-- ===== src/Agent/Networks.antt =====
-- esp32-agent/components/htsn_agent/htsn_cfg.c: the list of saved WiFi networks.
pub mod Spec
pub mod Lists
pub mod Stored
pub mod Refined
use wireless_tsn_configurato.Base.{
  ℕ, zero, suc, ◌+◌, ◌-◌, Bool, true, false, Option, none, some, List, [], ◌∷◌, ◌++◌, ltb, leb,
  ◌==◌, ◌||◌, not, ◌>>=◌, if◌then◌else◌, length, take, drop, replicate, get_or, set, min,
}
use wireless_tsn_configurato.Base.Int.{ℤ, pos, pos_part, ltb_ℤ}
use wireless_tsn_configurato.Base.Text.{CString, codes, str_eq, is_empty}
use wireless_tsn_configurato.Common.StrUtil.{copied}
use wireless_tsn_configurato.Agent.Nvs.{Network, networks, Nvs, as_networks, set_given, set_str}

-- `HTSN_NET_MAX`
abbrev pub net_max : ℕ
net_max = 10

abbrev pub key_net_list : CString
key_net_list = codes "net_list"

abbrev pub key_wifi_ssid : CString
key_wifi_ssid = codes "wifi_ssid"

abbrev pub key_wifi_pass : CString
key_wifi_pass = codes "wifi_pass"

abbrev pub blank : Network
blank = record { ssid = []; pass = [] }

abbrev pub or_empty : Option CString → CString
or_empty none = []
or_empty (some s) = s

-- The loop of `htsn_cfg_net_add` over the first `cnt` entries: the list with the new password, or
-- none where the name is not found.
unfoldable pub replace_pass : ℕ → CString → CString → List Network → Option (List Network)
replace_pass zero ssid pass list = none
replace_pass (suc cnt) ssid pass [] = none
replace_pass (suc cnt) ssid pass (e ∷ list) =
    let rest = replace_pass cnt ssid pass list >>= (λ list'. some (e ∷ list')) in
    if str_eq e.ssid ssid then some (record e { pass = copied 65 pass } ∷ list) else rest

-- The entries that `htsn_cfg_net_remove` keeps.
unfoldable pub others : CString → List Network → List Network
others ssid [] = []
others ssid (e ∷ list) =
    let rest = others ssid list in if str_eq e.ssid ssid then rest else e ∷ rest

module _ {H : Type 0} (nvs : Nvs H) where
  -- `htsn_cfg_net_count`
  unfoldable pub net_count : H → ℕ
  net_count h =
      if nvs.opens h false
      then elim (as_networks (nvs.get h key_net_list)) [
        | none ↦ 0
        | some ns ↦ min (length ns) net_max
      ]
      else 0

  -- `net_load_blob` into a cleared buffer of `net_max` entries; a longer blob is not read.
  unfoldable pub net_load : H → List Network
  net_load h =
      let cleared = replicate net_max blank in
      if nvs.opens h false
      then elim (as_networks (nvs.get h key_net_list)) [
        | none ↦ cleared
        | some ns ↦ if leb (length ns) net_max then take net_max (ns ++ cleared) else cleared
      ]
      else cleared

  -- `net_save_blob` of the first `n` entries.
  unfoldable pub net_save : H → List Network → ℕ → H
  net_save h list n =
      if nvs.opens h true
      then (nvs.commit (
          if n == 0
          then nvs.erase_key h key_net_list
          else nvs.set h key_net_list (networks (take n list)))).1
      else h

  -- `htsn_cfg_net_get`: name and password as they are copied, and the result.
  unfoldable pub net_get : H → ℤ → ℕ → ℕ → Option (CString × CString × Bool)
  unfolding net_count net_load
  net_get h idx ssid_sz pass_sz =
      if ltb_ℤ idx (pos 0) || not (ltb_ℤ idx (pos (net_count h)))
      then none
      else (let e = get_or (net_load h) (pos_part idx) blank in
          some (copied ssid_sz e.ssid, copied pass_sz e.pass, not (is_empty e.ssid)))

  -- The part of `htsn_cfg_net_add` behind the keys of the active network, with `cnt` and `list`.
  unfoldable pub place : H → ℕ → List Network → CString → CString → H × Bool
  unfolding net_save replace_pass
  place h cnt list ssid pass =
      let entry : Network = record { ssid = copied 33 ssid; pass = copied 65 pass } in
      elim (replace_pass cnt ssid pass list) [
        | some list' ↦ (net_save h list' cnt, false)
        | none ↦
            if leb net_max cnt
            then (
              net_save h (set (drop 1 list ++ drop (net_max - 1) list) (net_max - 1) entry) net_max,
              true,
            )
            else (net_save h (set list cnt entry) (cnt + 1), true)
      ]

  -- `htsn_cfg_net_add`
  unfoldable pub net_add : H → Option CString → Option CString → H × Bool
  unfolding net_count net_load place set_given set_str
  net_add h none pass = (h, false)
  net_add h (some ssid) pass =
      if is_empty ssid
      then (h, false)
      else (let h' = set_str nvs (set_given nvs h key_wifi_pass pass) key_wifi_ssid ssid in
          place h' (net_count h') (net_load h') ssid (or_empty pass))

  -- `htsn_cfg_net_remove`
  unfoldable pub net_remove : H → Option CString → H
  unfolding net_count net_load net_save others
  net_remove h none = h
  net_remove h (some ssid) =
      let kept = others ssid (take (net_count h) (net_load h)) in
      if is_empty ssid || net_count h == 0 then h else net_save h kept (length kept)

  -- `htsn_cfg_net_clear`
  unfoldable pub net_clear : H → H
  unfolding net_save
  net_clear h = net_save h [] 0
