-- ===== src/Vlan.antt =====
-- src/vlan/vlan.c: VLAN groups and their check.
pub mod Check
use wireless_tsn_configurato.Base.{ℕ, ◌||◌, ◌++◌, ◌-◌, if◌then◌else◌}
use wireless_tsn_configurato.Base.Int.{ℤ, pos, ltb_ℤ}
use wireless_tsn_configurato.Base.Text.{CString, codes, is_empty}
use wireless_tsn_configurato.Common.{Error, ok, invalid_arg, max_str}
use wireless_tsn_configurato.Common.StrUtil.{copied}
use wireless_tsn_configurato.Decimal.{show_ℤ}

abbrev pub vlan_id_min : ℤ
vlan_id_min = pos 1

abbrev pub vlan_id_max : ℤ
vlan_id_max = pos 4094

-- `htsn_vlan_group_model`
pub record GroupModel : Type 0 where
  pub id : CString
  pub name : CString
  pub vlan_id : ℤ

-- `htsn_vlan_membership`
pub record Membership : Type 0 where
  pub group_id : CString
  pub device_id : CString

-- `htsn_vlan_validate_group`
unfoldable pub validate_group : GroupModel → Error
validate_group g =
    if ltb_ℤ g.vlan_id vlan_id_min || ltb_ℤ vlan_id_max g.vlan_id
    then invalid_arg
    else if is_empty g.name
    then invalid_arg
    else ok

-- `htsn_vlan_group_id`: `snprintf` cuts its text to the buffer.
unfoldable pub group_id : GroupModel → GroupModel
unfolding show_ℤ
group_id g = record g { id = copied max_str (codes "vlan-" ++ show_ℤ g.vlan_id) }
