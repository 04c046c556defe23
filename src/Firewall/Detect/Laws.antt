-- ===== src/Firewall/Detect/Laws.antt =====
-- Detection of the firewall: the questions that it sends, and what a later detection does.
use mathlib.Core.Path.{subst}
use emarecloud.Prelude.{
  ◌+◌, ◌++◌, [], ◌∷◌, sym, String, ◌≡◌, refl, ap, ◌∙◌, inl, inr, Bool, true, false, Option, none,
  some, if◌then◌else◌, Option-cases, nat_eq, string_eq, pair_eq,
}
use mathlib.Core.Option
use emarecloud.Dict
use emarecloud.Dict.Laws.{get-set, beq_refl}
use emarecloud.Firewall.Program.{
  Reply, Kind, ufw, firewalld, Service, Caches, Program, done, raised, call, M, ◌>>=◌, pure, gets,
  modify, exec,
}
use emarecloud.Firewall.Program.Sends.{Sends, sends_rules, Sends-pure}
use emarecloud.Firewall.Detect.{
  invalidate_cache, set_type_cache, ask_ufw, ask_firewalld, ask_emareos, found, probe, probe_others,
  probe_emareos, known_or_probe, detect_type, detect_type_with, look_up, known_kind, count_read,
  cache_kind,
}

-- A question of `_detect_type` to a server.
pub data IsQuestion (server : String) : String → String → Type 0 where
  of_ufw : IsQuestion server server ask_ufw
  of_firewalld : IsQuestion server server ask_firewalld
  of_emareos : IsQuestion server server ask_emareos

pub invalidate_cache-Sends :
    {P : String → String → Type 0} (s : String) → Sends P (invalidate_cache s)
unfolding invalidate_cache
invalidate_cache-Sends s = search sends_rules

found-Sends : (s : String) (k : Option Kind) → Sends (IsQuestion s) (found s k)
unfolding found set_type_cache
found-Sends s k = search sends_rules

probe_emareos-Sends : (s : String) → Sends (IsQuestion s) (probe_emareos s)
unfolding probe_emareos
probe_emareos-Sends s = search (sends_rules, found-Sends, of_emareos)

probe_others-Sends : (s : String) → Sends (IsQuestion s) (probe_others s)
unfolding probe_others
probe_others-Sends s = search (sends_rules, found-Sends, probe_emareos-Sends, of_firewalld)

probe-Sends : (s : String) → Sends (IsQuestion s) (probe s)
unfolding probe
probe-Sends s = search (sends_rules, found-Sends, probe_others-Sends, of_ufw)

known_or_probe-Sends :
    (s : String) (o : Option (Option Kind)) → Sends (IsQuestion s) (known_or_probe s o)
unfolding known_or_probe
known_or_probe-Sends s none = probe-Sends s
known_or_probe-Sends s (some k) = Sends-pure k

look_up-Sends : (s : String) → Sends (IsQuestion s) (look_up s)
unfolding look_up
look_up-Sends s = search sends_rules

pub detect_type-Sends : (s : String) → Sends (IsQuestion s) (detect_type s)
unfolding detect_type detect_type_with
detect_type-Sends s = search (sends_rules, look_up-Sends, known_or_probe-Sends)

-- What detection does in the caches that an earlier detection with an answer left: without a cache service it ends at
-- once with that answer; with one, it ends with the kind that the service answers, or asks again where it answers None.
abbrev pub StandsBy : (server : String) → Option Kind → Option Service → Caches → Type 0
StandsBy s k none c = detect_type s c ≡ done c k
StandsBy s k (some v) c =
    detect_type s c
    ≡ known_or_probe s (Option.map some (v.answer v.reads s)) (count_read (some v) c)

abbrev pub AnswersFrom : (server : String) → Program (Option Kind) → Type 0
AnswersFrom s (done c k) = StandsBy s k c.service c
AnswersFrom s (raised c e) = ⊥
AnswersFrom s (call t m k) = (r : Reply) → AnswersFrom s (k r)

with_service :
    (s : String) (k : Option Kind) (v : Service) (c : Caches)
    → c.service ≡ some v
    → StandsBy s k (some v) c
unfolding detect_type detect_type_with look_up gets modify pure ◌>>=◌
with_service s k v c e = ap (λ o. known_or_probe s (known_kind s o c) (count_read o c)) e

without_service :
    (s : String) (k : Option Kind) (c : Caches)
    → c.service ≡ none
    → Dict.get s c.kinds ≡ some k
    → detect_type s c ≡ done c k
unfolding detect_type detect_type_with look_up gets modify pure ◌>>=◌ known_or_probe
without_service s k c e h =
    ap (λ o. known_or_probe s (known_kind s o c) (count_read o c)) e
    ∙ ap (λ o. known_or_probe s o c) h

cached-again :
    (s : String) (k : Option Kind) (o : Option Service) (c : Caches)
    → c.service ≡ o
    → StandsBy s k (cache_kind s k o c).service (cache_kind s k o c)
cached-again s k none c e =
    let asked : Dict.get s (Dict.set s k c.kinds) ≡ some k =
      rw (get-set s s k c.kinds, beq_refl s) refl in
    subst (λ o. StandsBy s k o (cache_kind s k none c)) (sym e)
      (without_service s k (cache_kind s k none c) e asked)
cached-again s k (some v) c e =
    with_service s k (record v { sets = v.sets ++ ((s, k) ∷ []) }) (cache_kind s k (some v) c) refl

found-again : (s : String) (k : Option Kind) (c : Caches) → AnswersFrom s (found s k c)
unfolding found set_type_cache modify pure ◌>>=◌
found-again s k c = cached-again s k c.service c refl

found_if-again :
    (s : String) (b : Bool) (k : Option Kind) (m : M (Option Kind)) (c : Caches)
    → AnswersFrom s (m c)
    → AnswersFrom s ((if b then found s k else m) c)
found_if-again s true k m c h = found-again s k c
found_if-again s false k m c h = h

probe-again : (s : String) (c : Caches) → AnswersFrom s (probe s c)
unfolding probe probe_others probe_emareos exec ◌>>=◌
probe-again s c = λ u.
    found_if-again s _ (some ufw) (probe_others s) c
      λ f. found_if-again s _ (some firewalld) (probe_emareos s) c λ e. found-again s _ c

known-again :
    (s : String) (o : Option Service) (c : Caches)
    → c.service ≡ o
    → AnswersFrom s (known_or_probe s (known_kind s o c) (count_read o c))
unfolding known_or_probe pure
known-again s none c e = elim (Option-cases (Dict.get s c.kinds)) [
  | inl h ↦ rw h (probe-again s c)
  | inr (k, h) ↦ rw h (subst (λ o. StandsBy s k o c) (sym e) (without_service s k c e h))
]
known-again s (some v) c e = elim (Option-cases (v.answer v.reads s)) [
  | inl h ↦ rw h (probe-again s (count_read (some v) c))
  | inr (k, h) ↦
      rw h (with_service s (some k) (record v { reads = v.reads + 1 }) (count_read (some v) c) refl)
]

-- However a server replies, detection ends with an answer and never raises; asked again from the
-- caches it leaves, a manager without a cache service gives the same answer at once, sends nothing
-- and changes no cache, and one with a service gives the kind that the service answers or, where
-- that is None, asks the server again.
pub detect_type-again : (s : String) (c : Caches) → AnswersFrom s (detect_type s c)
unfolding detect_type detect_type_with look_up gets modify pure ◌>>=◌
detect_type-again s c = known-again s c.service c refl
