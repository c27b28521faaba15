-- ===== src/Common/ErrorCodes.antt =====
-- a.yanin/common/error-codes: the status that the collections return.
use mathlib.Core.Bool.{Bool, true, false}

-- `common_error_code_t`
pub data ErrorCode : Type 0 where
  ok : ErrorCode
  memory_allocation_failure : ErrorCode
  overflow : ErrorCode
  not_found : ErrorCode
  file_error : ErrorCode
  unexpected_character : ErrorCode
  unexpected_eof : ErrorCode
  number_too_large : ErrorCode
  malformed_number : ErrorCode

-- the test of `GOTO_ON_ERROR`
abbrev pub is_ok : ErrorCode → Bool
is_ok ErrorCode.ok = true
is_ok _ = false
