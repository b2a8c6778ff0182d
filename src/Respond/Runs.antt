-- ===== src/Respond/Runs.antt =====
-- One name that unfolds what a responder of negotiation.py calls, for runs at concrete messages.
use clonway_cockpit.Handoff.Checks.{checks}
use clonway_cockpit.Handoff.{slug_head, slug_char, slug_shape, compose}
use clonway_cockpit.Prelude.Texts.{
  text_append, text_take, strip_of, lstrip_of, rstrip_of, map_char, lower, paired, lstrip, rstrip,
  is_space, join, sort_texts, insert_text, text_leb,
}
use clonway_cockpit.Value.{lookup, lookup_or, is_false, is_true}
use clonway_cockpit.Reflex.{
  fire_reflexes, fire_each, fire_one, fire_matched, seen, pair_seen, approves, is_safe_proposal,
  blank_text, listed_key, slug_text, seen_values, under_max, first_provenance, build_proposal,
  audit_reflex, after_run, note_applied, mark, note_ok, note_name, slug_key, dash_out, is_dash,
  report,
}
use clonway_cockpit.Reconcile.{construct, single_line, squeeze, firing_decision}
use clonway_cockpit.Walk.{decimal_of, text_drop}
use clonway_cockpit.Respond.{
  respond, respond_to, negotiate, negotiate_as, take_over, synthetic_notice, synthetic_summary,
  redirected_asks, answer, decide_remaining, decide, decide_from, unavailable, canned_say,
  construct_each, remaining_of, post, response_of, record_turns, record_task_note, note_of,
  status_line, count_of, counted_names, number_text, fire, fire_with,
}

unfoldable pub runs : Unit {0}
unfolding checks slug_head slug_char slug_shape compose text_append text_take strip_of lstrip_of
    rstrip_of map_char lower paired lstrip rstrip is_space join sort_texts insert_text text_leb
    lookup lookup_or is_false is_true fire_reflexes fire_each fire_one fire_matched seen pair_seen
    approves is_safe_proposal blank_text listed_key slug_text seen_values under_max first_provenance
    build_proposal audit_reflex after_run note_applied mark note_ok note_name slug_key dash_out
    is_dash report construct single_line squeeze firing_decision decimal_of text_drop respond
    respond_to negotiate negotiate_as take_over synthetic_notice synthetic_summary redirected_asks
    answer decide_remaining decide decide_from unavailable canned_say construct_each remaining_of
    post response_of record_turns record_task_note note_of status_line count_of counted_names
    number_text fire fire_with
runs = tt
