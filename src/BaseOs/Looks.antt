-- ===== src/BaseOs/Looks.antt =====
-- The parts of the base updater that have no effect: they keep any property of the effects.
use xaac_thin_client_os.Base.{strip, Bool, true, false, String, List, [], ◌∷◌}
use xaac_thin_client_os.Json.{Json, Fields}
use xaac_thin_client_os.Machine.{Event, Exc, runtime_error, failure}
use xaac_thin_client_os.Machine.Keeps.{
  Keeps, keeps_rules, Keeps-pure, Keeps-bind, Keeps-or_raise, Keeps-traverse, Keeps-elim,
}
use xaac_thin_client_os.Machine.Quiet.{look_rules, Keeps-str_value}
use xaac_thin_client_os.Update.Quiet.{Keeps-setting, Keeps-int_setting}
use xaac_thin_client_os.BaseOs.Runtime.{previous_state, unreadable, os_release, debian_version}
use xaac_thin_client_os.BaseOs.Sources.{
  with_size, present_files, listed_files, source_files, Source, entry, parse_words, parse_entry,
  parse_list, is_comment, block_sources, enabled_sources, parse_block, parse_blocks, parse_text,
  parse_file,
}
use xaac_thin_client_os.BaseOs.Trust.{
  list_of, text_of, allowed_suite, allowed_of, parse_files, check_source, accept_sources,
  validate_sources, Origin,
}
use xaac_thin_client_os.BaseOs.Checks.{
  no_file, command_line, boot_check, sources_check, space_check,
}
use xaac_thin_client_os.BaseOs.Plan.{Change, prefix_of, approve}
use xaac_thin_client_os.BaseOs.Check.{plan_fingerprint}
use xaac_thin_client_os.BaseOs.Apply.{absent, executable_check, health_list, health_option}

module _ {P : List Event → Type 0} where
  pub Keeps-unreadable : {A : Type 0} (s : String) (e : Exc) → Keeps P (unreadable {A = A} s e)
  unfolding unreadable
  Keeps-unreadable s (runtime_error t) = search keeps_rules
  Keeps-unreadable s (failure t) = search keeps_rules

  pub Keeps-os_release : Keeps P os_release
  unfolding os_release
  Keeps-os_release = search (look_rules, Keeps-unreadable)

  pub Keeps-debian_version : Keeps P debian_version
  unfolding debian_version
  Keeps-debian_version = search (look_rules, Keeps-unreadable)

  pub Keeps-with_size : (p : String) (b : Bool) → Keeps P (with_size p b)
  unfolding with_size
  Keeps-with_size p false = search look_rules
  Keeps-with_size p true = search look_rules

  pub Keeps-present_files : (ps : List String) → Keeps P (present_files ps)
  unfolding present_files
  Keeps-present_files [] = search look_rules
  Keeps-present_files (p ∷ ps) = Keeps-bind _ _ (search look_rules) (λ there.
      Keeps-bind _ _ (Keeps-with_size p there)
        (λ counts. Keeps-bind _ _ (Keeps-present_files ps) (λ others. Keeps-pure _)))

  pub Keeps-listed_files : (b : Bool) → Keeps P (listed_files b)
  unfolding listed_files
  Keeps-listed_files false = search look_rules
  Keeps-listed_files true = search look_rules

  pub Keeps-source_files : Keeps P source_files
  unfolding source_files
  Keeps-source_files = search (look_rules, Keeps-listed_files, Keeps-present_files)

  pub Keeps-entry : (os ws : List String) → Keeps P (entry os ws)
  unfolding entry
  Keeps-entry os [] = search keeps_rules
  Keeps-entry os (a ∷ []) = search keeps_rules
  Keeps-entry os (a ∷ b ∷ []) = search keeps_rules
  Keeps-entry os (a ∷ b ∷ c ∷ cs) = search keeps_rules

  pub Keeps-parse_words : (ws : List String) → Keeps P (parse_words ws)
  unfolding parse_words
  Keeps-parse_words [] = search keeps_rules
  Keeps-parse_words (w ∷ ws) = search (keeps_rules, Keeps-entry)

  pub Keeps-parse_entry : (l : String) → Keeps P (parse_entry l)
  unfolding parse_entry
  Keeps-parse_entry l = search (keeps_rules, Keeps-parse_words)

  pub Keeps-parse_list : (ls : List String) → Keeps P (parse_list ls)
  unfolding parse_list
  Keeps-parse_list [] = search keeps_rules
  Keeps-parse_list (l ∷ ls) = Keeps-elim (is_comment (strip l)) _ _ (Keeps-parse_list ls) (
      Keeps-bind _ _ (Keeps-parse_entry _)
        (λ one. Keeps-bind _ _ (Keeps-parse_list ls) (λ others. Keeps-pure _)))

  pub Keeps-block_sources :
      (us : List String) (fs : List (String × String)) → Keeps P (block_sources us fs)
  unfolding block_sources
  Keeps-block_sources [] fs = search keeps_rules
  Keeps-block_sources (u ∷ []) fs = search keeps_rules
  Keeps-block_sources (u ∷ v ∷ us) fs = search keeps_rules

  pub Keeps-enabled_sources :
      (b : Bool) (fs : List (String × String)) → Keeps P (enabled_sources b fs)
  unfolding enabled_sources
  Keeps-enabled_sources true fs = search keeps_rules
  Keeps-enabled_sources false fs = search (keeps_rules, Keeps-block_sources)

  pub Keeps-parse_block : (fs : List (String × String)) → Keeps P (parse_block fs)
  unfolding parse_block
  Keeps-parse_block [] = search keeps_rules
  Keeps-parse_block (f ∷ fs) = Keeps-enabled_sources _ (f ∷ fs)

  pub Keeps-parse_blocks : (bs : List (List String)) → Keeps P (parse_blocks bs)
  unfolding parse_blocks
  Keeps-parse_blocks [] = search keeps_rules
  Keeps-parse_blocks (b ∷ bs) =
      Keeps-bind _ _ (Keeps-parse_block _)
        (λ one. Keeps-bind _ _ (Keeps-parse_blocks bs) (λ others. Keeps-pure _))

  pub Keeps-parse_text : (b : Bool) (s : String) → Keeps P (parse_text b s)
  unfolding parse_text
  Keeps-parse_text true s = Keeps-parse_blocks _
  Keeps-parse_text false s = Keeps-parse_list _

  pub Keeps-parse_file : (p : String) → Keeps P (parse_file p)
  unfolding parse_file
  Keeps-parse_file p = search (look_rules, Keeps-parse_text)

  pub Keeps-parse_files : (ps : List String) → Keeps P (parse_files ps)
  unfolding parse_files
  Keeps-parse_files [] = search keeps_rules
  Keeps-parse_files (p ∷ ps) =
      Keeps-bind _ _ (Keeps-parse_file p)
        (λ one. Keeps-bind _ _ (Keeps-parse_files ps) (λ others. Keeps-pure _))

  pub Keeps-list_of : (k : String) (fs : Fields) → Keeps P (list_of k fs)
  unfolding list_of
  Keeps-list_of k fs = search keeps_rules

  pub Keeps-text_of : (v : Json) → Keeps P (text_of v)
  unfolding text_of
  Keeps-text_of v = search keeps_rules

  pub Keeps-allowed_suite : (fs : Fields) (v : Json) → Keeps P (allowed_suite fs v)
  unfolding allowed_suite
  Keeps-allowed_suite fs v =
      search (keeps_rules, Keeps-list_of, Keeps-text_of, Keeps-str_value) depth 14

  pub Keeps-allowed_of : (vs : List Json) → Keeps P (allowed_of vs)
  unfolding allowed_of
  Keeps-allowed_of [] = search keeps_rules
  Keeps-allowed_of (v ∷ vs) = Keeps-bind _ _ (Keeps-or_raise _ _) (λ fs.
      Keeps-bind _ _ (Keeps-list_of _ fs) (λ us.
        Keeps-bind _ _ (Keeps-traverse us _ (Keeps-allowed_suite fs))
          (λ one. Keeps-bind _ _ (Keeps-allowed_of vs) (λ others. Keeps-pure _))))

  pub Keeps-check_source : (s : Source) → Keeps P (check_source s)
  unfolding check_source
  Keeps-check_source s = search keeps_rules depth 14

  pub Keeps-accept_sources :
      (os : List Origin) (fs : List String) (ss : List Source) → Keeps P (accept_sources os fs ss)
  unfolding accept_sources
  Keeps-accept_sources os fs ss = search (look_rules, Keeps-check_source) depth 14

  pub Keeps-validate_sources : (p : Fields) → Keeps P (validate_sources p)
  unfolding validate_sources
  Keeps-validate_sources p =
      search
        (
          keeps_rules, Keeps-list_of, Keeps-allowed_of, Keeps-source_files, Keeps-parse_files,
          Keeps-accept_sources,
        )
        depth 16

  pub Keeps-no_file : (e : Exc) → Keeps P (no_file e)
  unfolding no_file
  Keeps-no_file (runtime_error s) = search keeps_rules
  Keeps-no_file (failure s) = search keeps_rules

  pub Keeps-command_line : Keeps P command_line
  unfolding command_line
  Keeps-command_line = search (look_rules, Keeps-no_file)

  pub Keeps-boot_check : Keeps P boot_check
  unfolding boot_check
  Keeps-boot_check = search (keeps_rules, Keeps-command_line)

  pub Keeps-sources_check : (p : Fields) → Keeps P (sources_check p)
  unfolding sources_check
  Keeps-sources_check p = search (keeps_rules, Keeps-validate_sources)

  pub Keeps-space_check : (p : Fields) → Keeps P (space_check p)
  unfolding space_check
  Keeps-space_check p = search (keeps_rules, Keeps-int_setting)

  pub Keeps-previous_state : (p : String) (b : Bool) → Keeps P (previous_state p b)
  unfolding previous_state
  Keeps-previous_state p false = search look_rules
  Keeps-previous_state p true = search look_rules

  pub Keeps-prefix_of : (v : Json) → Keeps P (prefix_of v)
  unfolding prefix_of
  Keeps-prefix_of v = search keeps_rules

  pub Keeps-approve : (p : Fields) (cs : List Change) → Keeps P (approve p cs)
  unfolding approve
  Keeps-approve p cs = search (keeps_rules, Keeps-setting, Keeps-prefix_of) depth 14

  pub Keeps-plan_fingerprint : (cs : List Change) → Keeps P (plan_fingerprint cs)
  unfolding plan_fingerprint
  Keeps-plan_fingerprint cs = search keeps_rules

  pub Keeps-health_list : (p : Fields) (k : String) → Keeps P (health_list p k)
  unfolding health_list
  Keeps-health_list p k = search (keeps_rules, Keeps-setting)

  pub Keeps-missing : (e : Exc) → Keeps P (absent e)
  unfolding absent
  Keeps-missing (runtime_error s) = search keeps_rules
  Keeps-missing (failure s) = search keeps_rules

  pub Keeps-health_option : (p : Fields) (k : String) → Keeps P (health_option p k)
  unfolding health_option
  Keeps-health_option p k = search (keeps_rules, Keeps-health_list, Keeps-missing)

  pub Keeps-executable_check : (v : Json) → Keeps P (executable_check v)
  unfolding executable_check
  Keeps-executable_check v = search (look_rules, Keeps-str_value) depth 14
