-- ===== src/Firewall/Rules/Safety.antt =====
-- What is sent to add a rule.
use emarecloud.Prelude.{
  String, ◌≡◌, ◌⊎◌, inl, inr, true, Option, none, some, Bool-cases, nat_eq, string_eq, pair_eq,
}
use emarecloud.Firewall.Validate.{validate_port, validate_protocol, validate_action, validate_ip}
use emarecloud.Firewall.Program.{Kind, ufw, firewalld, emareos, M, Outcome}
use emarecloud.Firewall.Program.Sends.{
  Sends, sends_rules, Sends-pure, Sends-bind, Sends-with_valid, Sends-weaken,
}
use emarecloud.Firewall.Detect.{detect_type}
use emarecloud.Firewall.Detect.Laws.{IsQuestion, invalidate_cache-Sends, detect_type-Sends}
use emarecloud.Firewall.Rules.{
  Rule, is_given, with_optional, redirect_ufw, rule_ufw, redirect_firewalld, quoted_source,
  source_part, redirect_emareos, rule_emareos, add_rule_with, checked_rule, add_rule,
}
use emarecloud.Firewall.Change.{change, change_and_reload}

-- A value that is given is accepted by its check.
abbrev pub IsAccepted : (String → String ⊎ String) → String → Type 0
IsAccepted check value = (v : String) × (check value ≡ inr v)

-- Every argument of a rule that is checked is accepted: the port, the protocol, the action and, where they are given, the
-- source address and the target port.
pub record AllAccepted (a : Rule) : Type 0 where
  pub port : IsAccepted validate_port a.port
  pub protocol : IsAccepted validate_protocol a.protocol
  pub action : IsAccepted validate_action a.action
  pub from_ip : is_given a.from_ip ≡ true → IsAccepted validate_ip a.from_ip
  pub to_port : is_given a.to_port ≡ true → IsAccepted validate_port a.to_port

-- A command to the server, which is a question unless the whole rule is accepted.
pub data RuleCommand (server : String) (a : Rule) : String → String → Type 0 where
  question : {s m : String} → IsQuestion server s m → RuleCommand server a s m
  changes : {m : String} → AllAccepted a → RuleCommand server a server m

Sends-with_optional :
    {P : String → String → Type 0} (check : String → String ⊎ String) (v : String)
    (f : String → M Outcome)
    → ((w : String) → (is_given v ≡ true → IsAccepted check v) → Sends P (f w))
    → Sends P (with_optional check v f)
unfolding with_optional
Sends-with_optional check v f h = elim (Bool-cases (is_given v)) [
  | inl g ↦ rw g (Sends-with_valid (check v) f (λ w e. h w (λ u. (w, e))))
  | inr g ↦ rw g (h v (λ u. cc))
]

module _ (s : String) (a : Rule) (h : AllAccepted a) where
  source_part-Sends : (b : Rule) → Sends (RuleCommand s a) (source_part b)
  unfolding source_part quoted_source
  source_part-Sends b = search sends_rules

  redirect_ufw-Sends : (b : Rule) → Sends (RuleCommand s a) (redirect_ufw s b)
  unfolding redirect_ufw
  redirect_ufw-Sends b = search (sends_rules, changes h) depth 12

  redirect_firewalld-Sends : (b : Rule) → Sends (RuleCommand s a) (redirect_firewalld s b)
  unfolding redirect_firewalld
  redirect_firewalld-Sends b = search (sends_rules, changes h) depth 12

  add_rule_with-Sends : (k : Kind) (b : Rule) → Sends (RuleCommand s a) (add_rule_with k s b)
  unfolding add_rule_with rule_ufw change change_and_reload redirect_emareos rule_emareos
  add_rule_with-Sends ufw b = search (sends_rules, redirect_ufw-Sends, changes h) depth 12
  add_rule_with-Sends firewalld b =
      search (sends_rules, redirect_firewalld-Sends, changes h) depth 12
  add_rule_with-Sends emareos b = search (sends_rules, source_part-Sends, changes h) depth 14

checked_rule-Sends :
    (k : Option Kind) (s : String) (a : Rule) → Sends (RuleCommand s a) (checked_rule k s a)
unfolding checked_rule
checked_rule-Sends none s a = Sends-pure _
checked_rule-Sends (some k) s a = Sends-with_valid _ _ λ port hp.
    Sends-with_valid _ _ λ protocol hr. Sends-with_valid _ _ λ action ha.
      Sends-with_optional validate_ip a.from_ip _ λ from_ip hf.
        Sends-with_optional validate_port a.to_port _ λ to_port ht.
          add_rule_with-Sends s a
            (record {
              port = (port, hp);
              protocol = (protocol, hr);
              action = (action, ha);
              from_ip = hf;
              to_port = ht;
            })
            k _

-- Whatever a server replies, `add_rule` sends commands to that server alone, and other than the questions of detection only
-- if the port, the protocol, the action and, where they are given, the source address and the target port are all accepted.
pub add_rule-Sends : (s : String) (a : Rule) → Sends (RuleCommand s a) (add_rule s a)
unfolding add_rule
add_rule-Sends s a =
    let asks : Sends (RuleCommand s a) (detect_type s) =
      Sends-weaken (detect_type s) (λ t m q. question q) (detect_type-Sends s) in
    Sends-bind _ _ (invalidate_cache-Sends s) λ u. Sends-bind _ _ asks λ k. checked_rule-Sends k s a
