-- ===== src/Systemd/Tests.antt =====
-- Two sockets that systemd passes to the process 7.
use quadsyncd.Base.{ℕ, ◌≡◌, refl, true, some, [], ◌∷◌, ok, text_eq, nat_eq}
use quadsyncd.Base.Text.{str, text_code}
use quadsyncd.Base.Decimal.{atoi, signed_value, digits_value}
use quadsyncd.Base.Dict.{lookup}
use quadsyncd.Systemd.Activation.{
  Environment, NothingOrSockets, listeners, open_from, listeners_lem,
}

abbrev vars : Environment
vars = (str "LISTEN_PID", str "7") ∷ (str "LISTEN_FDS", str "2") ∷ []

two_sockets : (listeners {L = ℕ} 7 (λ fd. true) some vars).0 ≡ ok (3 ∷ 4 ∷ [])
unfolding listeners open_from atoi signed_value digits_value lookup text_code text_eq nat_eq
two_sockets = refl

listeners_lem_example :
    NothingOrSockets {L = ℕ} 7
      (λ fd. true)
      some
      vars
      (3 ∷ 4 ∷ [])
      (listeners {L = ℕ} 7 (λ fd. true) some vars).1
listeners_lem_example = listeners_lem {L = ℕ} 7 (λ fd. true) some vars (3 ∷ 4 ∷ []) two_sockets
