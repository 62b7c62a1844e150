-- ===== src/Agent/Nvs.antt =====
-- esp32-agent/components/htsn_agent/htsn_cfg.c: its calls of the NVS library of the ESP-IDF, in the
-- namespace of the agent. An entry has one type; a blob is the array that was written.
use wireless_tsn_configurato.Base.{
  false, ℕ, ◌≡◌, Bool, true, Option, none, some, List, leb, if◌then◌else◌, length, suc,
}
use wireless_tsn_configurato.Base.Int.{ℤ}
use wireless_tsn_configurato.Base.Text.{CString, str_eq}
use wireless_tsn_configurato.Common.StrUtil.{copied}

-- `net_entry_t`: two buffers of 33 and 65 bytes.
pub record Network : Type 0 where
  pub ssid : CString
  pub pass : CString

pub data Item : Type 0 where
  i32 i64 : ℤ → Item
  str : CString → Item
  ints longs : List ℤ → Item
  networks : List Network → Item

pub record Nvs (H : Type 0) : Type 0 where
  -- `nvs_open(HTSN_NVS_NAMESPACE, mode, …) == ESP_OK`, true for `NVS_READWRITE`
  pub opens : H → Bool → Bool
  -- the entry of a key, as the getters find it
  pub get : H → CString → Option Item
  -- a setter, whose result the code does not look at
  pub set : H → CString → Item → H
  pub erase_key : H → CString → H
  -- `nvs_commit`: whether it gave `ESP_OK`, and the store afterwards
  pub commit : H → Bool × H

-- What the code relies on where the library reports no error and the flash has room: what was set is
-- what is read.
pub record ReadsBack {H : Type 0} (nvs : Nvs H) : Type 0 where
  pub writes : (h : H) → nvs.opens h true ≡ true
  -- the namespace is there to be read once it holds an entry
  pub reads : (h : H) (k : CString) (v : Item) → nvs.get h k ≡ some v → nvs.opens h false ≡ true
  pub get_set :
      (h : H) (k : CString) (v : Item) (j : CString)
      → nvs.get (nvs.set h k v) j ≡ (if str_eq k j then some v else nvs.get h j)
  pub get_erase :
      (h : H) (k j : CString)
      → nvs.get (nvs.erase_key h k) j ≡ (if str_eq k j then none else nvs.get h j)
  pub get_commit : (h : H) (j : CString) → nvs.get (nvs.commit h).1 j ≡ nvs.get h j

abbrev pub as_i32 : Option Item → Option ℤ
as_i32 (some (i32 n)) = some n
as_i32 _ = none

abbrev pub as_i64 : Option Item → Option ℤ
as_i64 (some (i64 n)) = some n
as_i64 _ = none

-- `nvs_get_str` into a buffer of `sz` bytes, which must hold the closing NUL too.
abbrev pub as_str : ℕ → Option Item → Option CString
as_str sz (some (str s)) = if leb (suc (length s)) sz then some s else none
as_str sz _ = none

abbrev pub as_ints : Option Item → Option (List ℤ)
as_ints (some (ints ns)) = some ns
as_ints _ = none

abbrev pub as_longs : Option Item → Option (List ℤ)
as_longs (some (longs ns)) = some ns
as_longs _ = none

abbrev pub as_networks : Option Item → Option (List Network)
as_networks (some (networks ns)) = some ns
as_networks _ = none

module _ {H : Type 0} (nvs : Nvs H) where
  -- `htsn_nvs_get_str`: what `out` holds afterwards, and the result.
  unfoldable pub get_str : H → CString → ℕ → CString → CString × Bool
  get_str h key sz dflt =
      if nvs.opens h false
      then elim (as_str sz (nvs.get h key)) [ none ↦ (copied sz dflt, false) | some s ↦ (s, true) ]
      else (copied sz dflt, false)

  -- `htsn_nvs_get_int`
  unfoldable pub get_int : H → CString → ℤ → ℤ
  get_int h key dflt =
      if nvs.opens h false then elim (as_i32 (nvs.get h key)) [ none ↦ dflt | some n ↦ n ] else dflt

  -- `htsn_nvs_set_str` and `htsn_nvs_set_int`
  unfoldable pub set_item : H → CString → Item → H
  set_item h key v = if nvs.opens h true then (nvs.commit (nvs.set h key v)).1 else h

  unfoldable pub set_str : H → CString → CString → H
  unfolding set_item
  set_str h key s = set_item h key (str s)

  unfoldable pub set_int : H → CString → ℤ → H
  unfolding set_item
  set_int h key n = set_item h key (i32 n)

  -- Of optional texts only those that are not NULL are set.
  unfoldable pub set_given : H → CString → Option CString → H
  unfolding set_str
  set_given h key none = h
  set_given h key (some s) = set_str h key s
