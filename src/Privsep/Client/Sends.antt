-- ===== src/Privsep/Client/Sends.antt =====
-- What a call that sends a message can have done.
use vasily.Base.{
  Bool, ◌++◌, ◌≡◌, ◌⊎◌, inl, inr, guard, write_failed, Result, ok, err, panic, ◌>>=◌, >>=-eq-ok,
  ok-injective,
}
use mathlib.Core.Path.{subst}
use vasily.Backend.{Bytes}
use vasily.Messages.Kinds.{Message, marshal}
use vasily.Privsep.Client.{Client, send_message, or_unchanged}

pub send_message-eq-ok :
    (c : Client) (msg : Message) (written : Bool) {c' : Client}
    → send_message c msg written ≡ ok c'
    → (buf : Bytes) × (record c { out = c.out ++ buf } ≡ c')
unfolding send_message
send_message-eq-ok c msg written h =
    let (buf, m, r) = >>=-eq-ok (marshal msg) _ h in
    let (u, g, r) = >>=-eq-ok (guard written write_failed) _ r in (buf, ok-injective r)

pub or_unchanged_cases :
    (c : Client) (x : Result Client) {c' : Client}
    → or_unchanged c x ≡ ok c'
    → (c ≡ c') ⊎ (x ≡ ok c')
or_unchanged_cases c (ok b) h = inr h
or_unchanged_cases c (err e) h = inl (ok-injective h)
or_unchanged_cases c panic h = cc

-- A property that neither the bytes sent nor what follows changes.
pub or_unchanged_keeps :
    (P : Client → Type 0) (c : Client) (msg : Message) (written : Bool) (next : Client → Client)
    {c' : Client}
    → P c
    → ((buf : Bytes) → P (next (record c { out = c.out ++ buf })))
    → or_unchanged c (send_message c msg written >>= λ b. ok (next b)) ≡ ok c'
    → P c'
or_unchanged_keeps P c msg written next p n h =
    elim (or_unchanged_cases c (send_message c msg written >>= λ b. ok (next b)) h) [
      | inl e ↦ subst P e p
      | inr e ↦
          let (b, s, r) = >>=-eq-ok (send_message c msg written) _ e in
          let (buf, q) = send_message-eq-ok c msg written s in
          subst P (ok-injective r) (subst (λ x. P (next x)) q (n buf))
    ]
