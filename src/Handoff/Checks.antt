-- ===== src/Handoff/Checks.antt =====
-- One name that unfolds every validator of handoff.py, for runs at concrete envelopes.
use clonway_cockpit.Prelude.Texts.{len, strip, any_char, all_char}
use clonway_cockpit.Handoff.{
  check_envelope, check_fact, check_decision, check_step, check_reflex_fields, check_shape,
  check_each, check_line, check_handle, is_safe_slug, is_newline, is_version_1,
}

unfoldable pub checks : Unit {0}
unfolding check_envelope check_fact check_decision check_step check_reflex_fields check_shape
    check_each check_line check_handle is_safe_slug is_newline strip is_version_1 any_char all_char
    len
checks = tt
