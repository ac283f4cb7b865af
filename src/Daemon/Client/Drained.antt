-- ===== src/Daemon/Client/Drained.antt =====
-- What `mcWaitNotification` makes of what its connection brings.
use android_hardware_samsung.Common.{
  ℕ, ◌+◌, ◌*◌, ◌≡◌, ap, ◌∙◌, Option, some, none, List, [], ◌∷◌, ◌==◌, if◌then◌else◌, refl, arith,
}
use android_hardware_samsung.Daemon.Driver.Wire.{Read, received, socket_error, get_word}
use android_hardware_samsung.Daemon.Client.State.{Client, Env, Reply, failed}
use android_hardware_samsung.Daemon.Client.Wire.{SessionHandle}
use android_hardware_samsung.Daemon.Client.Places.{
  Place, put, finds_device, finds_session, changed_in_place,
}
use android_hardware_samsung.Daemon.Client.Waiting.{
  set_error_info, is_whole, payload, drain, first_round, mc_wait_notification,
}

-- Eight bytes are a notification; the exit code is the second word, its low byte first.
abbrev pub notification_of : Read → Option ℕ
notification_of (received (_ ∷ _ ∷ _ ∷ _ ∷ b₀ ∷ b₁ ∷ b₂ ∷ b₃ ∷ [])) =
    some (b₀ + 256 * (b₁ + 256 * (b₂ + 256 * b₃)))
notification_of _ = none

-- The first exit code that is not 0, among the notifications ahead of any other read.
abbrev pub exit_code : List Read → Option ℕ
exit_code [] = none
exit_code (r ∷ rs) =
    let rest = exit_code rs in
    elim (notification_of r) [ none ↦ none | some e ↦ if e == 0 then rest else some e ]

-- What the library is to answer, and what it is to keep in the session's place.
abbrev pub reported : (h : SessionHandle) (c : Client) → Place h c → Option ℕ → Reply
reported h c p none = record { code = 0; out = []; client = c }
reported h c p (some e) = record {
  code = 21;
  out = [];
  client = record c { devices = put h c p (record (p.session) { last_err = e } ∷ []) };
}

notification_of_lem :
    (r : Read) → notification_of r ≡ (if is_whole r then some (payload r) else none)
unfolding get_word
notification_of_lem socket_error = refl
notification_of_lem (received []) = refl
notification_of_lem (received (_ ∷ [])) = refl
notification_of_lem (received (_ ∷ _ ∷ [])) = refl
notification_of_lem (received (_ ∷ _ ∷ _ ∷ [])) = refl
notification_of_lem (received (_ ∷ _ ∷ _ ∷ _ ∷ [])) = refl
notification_of_lem (received (_ ∷ _ ∷ _ ∷ _ ∷ _ ∷ [])) = refl
notification_of_lem (received (_ ∷ _ ∷ _ ∷ _ ∷ _ ∷ _ ∷ [])) = refl
notification_of_lem (received (_ ∷ _ ∷ _ ∷ _ ∷ _ ∷ _ ∷ _ ∷ [])) = refl
notification_of_lem (received (_ ∷ _ ∷ _ ∷ _ ∷ _ ∷ _ ∷ _ ∷ _ ∷ [])) = refl
notification_of_lem (received (_ ∷ _ ∷ _ ∷ _ ∷ _ ∷ _ ∷ _ ∷ _ ∷ _ ∷ bs)) = ground arith

abbrev report : SessionHandle → Option ℕ → Client → Reply
report h none c = failed 0 c
report h (some e) c = failed 21 (set_error_info h e c)

report_lem :
    (h : SessionHandle) (c : Client) (p : Place h c) (o : Option ℕ)
    → report h o c ≡ reported h c p o
report_lem h c p none = refl
report_lem h c p (some e) =
    ap (λ ds. failed 21 (record c { devices = ds }))
      (changed_in_place h c p (λ s. record s { last_err = e }))

drain_lem :
    (h : SessionHandle) (rs : List Read) (c : Client) → drain h rs c ≡ report h (exit_code rs) c
unfolding drain
drain_lem h [] c = refl
drain_lem h (r ∷ rs) c = ground (arith, drain_lem h rs c, notification_of_lem r)

first_round_lem :
    (env : Env) (h : SessionHandle) (r : Read) (rs : List Read) (c : Client) (n : ℕ)
    → notification_of r ≡ some n
    → first_round env h (r ∷ rs) c ≡ report h (exit_code (r ∷ rs)) c
unfolding first_round
first_round_lem env h socket_error rs c n e = cc
first_round_lem env h (received []) rs c n e = cc
first_round_lem env h (received (b ∷ bs)) rs c n e =
    ground (arith, drain_lem h (received (b ∷ bs) ∷ rs) c, notification_of_lem (received (b ∷ bs)))

-- A wait of a session that the library knows, whose first read is a notification, of eight bytes:
-- it reads on to the first notification with an exit code that is not 0 and, if there is one ahead
-- of any other read, answers INFO_NOTIFICATION and keeps the code as the last error of the
-- session, the first of the handle's on the first of its devices, and changes nothing else; if not,
-- it answers OK and changes nothing, whatever ends the notifications.
pub wait_notification_lem :
    (env : Env) (h : SessionHandle) (r : Read) (rs : List Read) (c : Client) (p : Place h c) (n : ℕ)
    → notification_of r ≡ some n
    → mc_wait_notification env (some h) (r ∷ rs) c ≡ reported h c p (exit_code (r ∷ rs))
unfolding mc_wait_notification
wait_notification_lem env h r rs c p n e =
    let looked : mc_wait_notification env (some h) (r ∷ rs) c ≡ first_round env h (r ∷ rs) c =
      ground (arith, finds_device h c p, finds_session h c p) in
    looked ∙ (first_round_lem env h r rs c n e ∙ report_lem h c p (exit_code (r ∷ rs)))
