-- ===== src/Common.antt =====
-- src/common: error codes (common.h) and string helpers (str_util.c).
pub mod StrUtil
use wireless_tsn_configurato.Base.{ℕ, Bool, true, false}
use wireless_tsn_configurato.Base.Text.{CString, codes}

-- `htsn_error`.
pub data Error : Type 0 where
  ok invalid_arg no_memory not_found already_exists db_error io_error net_error : Error
  not_implemented busy not_ready last : Error

-- `htsn_error_str`.
unfoldable pub error_str : Error → CString
error_str Error.ok = codes "ok"
error_str Error.invalid_arg = codes "invalid argument"
error_str Error.no_memory = codes "out of memory"
error_str Error.not_found = codes "not found"
error_str Error.already_exists = codes "already exists"
error_str Error.db_error = codes "database error"
error_str Error.io_error = codes "i/o error"
error_str Error.net_error = codes "network error"
error_str Error.not_implemented = codes "not implemented"
error_str Error.busy = codes "busy"
error_str Error.not_ready = codes "not ready"
error_str Error.last = codes "unknown error"

-- `HTSN_MAX_STR`, `HTSN_MAX_DEVICES`.
abbrev pub max_str : ℕ
max_str = 256

abbrev pub max_devices : ℕ
max_devices = 512

-- `e == HTSN_OK`
abbrev pub is_ok : Error → Bool
is_ok Error.ok = true
is_ok _ = false
