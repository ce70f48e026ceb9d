-- ===== src/Common/Status.antt =====
-- The status codes of include/hermes/common/errors.h (`hermes_status_t`, a uint32_t).
use hermes_core.Prelude.{ℕ}

abbrev pub Status : Type 0
Status = ℕ

abbrev pub hm_success : Status
hm_success = 0

abbrev pub hm_fail : Status
hm_fail = 0xf0001

abbrev pub hm_invalid_parameter : Status
hm_invalid_parameter = 0xf0002

abbrev pub hm_buffer_too_small : Status
hm_buffer_too_small = 0xf0003

abbrev pub hm_bad_alloc : Status
hm_bad_alloc = 0xf0004
