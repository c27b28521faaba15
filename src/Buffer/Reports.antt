-- ===== src/Buffer/Reports.antt =====
-- a.yanin/common/error/src/error.c: an `error_t *`, `null` where there is none.
use posix_threads.Common.{Bool, true, false, if◌then◌else◌}

-- the messages of a.yanin/waxy/src/url.c
pub data Problem : Type 0 where
  out_of_memory : Problem
  leading_blank : Problem
  trailing_blank : Problem
  tab_or_newline : Problem
  file_slashes : Problem
  no_scheme : Problem
  special_slashes : Problem
  extra_slash : Problem
  at_sign : Problem
  no_hostname : Problem
  empty_hostname : Problem
  bad_port : Problem
  high_port : Problem
  port_characters : Problem
  file_backslash : Problem
  drive_letter : Problem
  backslash : Problem
  path_character : Problem
  percent_escape : Problem
  query_character : Problem
  fragment_character : Problem

pub data Report : Type 0 where
  null : Report
  sentinel : Report
  message : Problem → Report
  combined : Report → Report → Report

abbrev pub is_null : Report → Bool
is_null null = true
is_null _ = false

-- `granted`: whether the `malloc` of the pair succeeds.
unfoldable pub error_combine : Bool → Report → Report → Report
error_combine granted null second = second
error_combine granted first null = first
error_combine granted first second = if granted then combined first second else sentinel
