-- ===== src/Daemon/Device/Registration.antt =====
-- `registerTrustletConnection`: the session that gets the connection for notifications.
use android_hardware_samsung.Common.{
  ℕ, ◌≡◌, ◌⊎◌, inl, inr, true, false, some, none, List, [], ◌∷◌, ◌++◌, Bool-cases, refl, ap, ◌∙◌,
  arith,
}
use android_hardware_samsung.Daemon.Session.{Session}
use android_hardware_samsung.Daemon.Device.Sessions.{matches, register_trustlet_connection}

-- Some session of a list is the one that pointer, magic number and id name, and it alone has
-- been given the connection.
pub record Registered (c address magic id : ℕ) (ss rest : List Session) (t : Session) : Type 0 where
  pub before : List Session
  pub session : Session
  pub after : List Session
  pub was : ss ≡ before ++ (session ∷ after)
  pub is : rest ≡ before ++ (t ∷ after)
  pub given : t ≡ record session { notification_connection = some c }
  pub same_address : session.address ≡ address
  pub same_magic : session.session_magic ≡ magic
  pub same_id : session.session_id ≡ id

register-matches :
    (c address magic id : ℕ) (s : Session) (ss : List Session)
    → matches s address magic id ≡ true
    → register_trustlet_connection c address magic id (s ∷ ss) ≡ (
      some (record s { notification_connection = some c }),
      record s { notification_connection = some c } ∷ ss,
    )
unfolding register_trustlet_connection
register-matches c address magic id s ss h = rw (h, register_trustlet_connection) refl

register_next :
    (c address magic id : ℕ) (s : Session) (ss : List Session)
    → matches s address magic id ≡ false
    → register_trustlet_connection c address magic id (s ∷ ss) ≡ (
      (register_trustlet_connection c address magic id ss).0,
      s ∷ (register_trustlet_connection c address magic id ss).1,
    )
unfolding register_trustlet_connection
register_next c address magic id s ss h = rw (h, register_trustlet_connection) refl

-- `registerTrustletConnection` finds a session only by its pointer, magic number and id together:
-- it gives the connection to that session and changes no other, or it answers NULL and changes
-- nothing.
pub register_trustlet_connection_lem :
    (c address magic id : ℕ) (ss : List Session)
    → (register_trustlet_connection c address magic id ss ≡ (none, ss))
      ⊎ ((t : Session) × ((register_trustlet_connection c address magic id ss).0 ≡ some t)
          × Registered c address magic id ss
              (register_trustlet_connection c address magic id ss).1
              t)
unfolding register_trustlet_connection
register_trustlet_connection_lem c address magic id [] = inl refl
register_trustlet_connection_lem c address magic id (s ∷ ss) =
    elim (Bool-cases (matches s address magic id)) [
      | inl y ↦
          let e = register-matches c address magic id s ss y in
          inr (
            record s { notification_connection = some c },
            ap (λ p. p.0) e,
            record {
              before = [];
              session = s;
              after = ss;
              was = refl;
              is = ap (λ p. p.1) e;
              given = refl;
              same_address = (parts s y).0;
              same_magic = (parts s y).1;
              same_id = (parts s y).2;
            },
          )
      | inr n ↦
          next (register_next c address magic id s ss n)
            (register_trustlet_connection_lem c address magic id ss)
    ]
  where
    parts :
        (s : Session)
        → matches s address magic id ≡ true
        → (s.address ≡ address) × (s.session_magic ≡ magic) × (s.session_id ≡ id)
    parts s h = ground arith

    next :
        register_trustlet_connection c address magic id (s ∷ ss) ≡ (
          (register_trustlet_connection c address magic id ss).0,
          s ∷ (register_trustlet_connection c address magic id ss).1,
        )
        → (register_trustlet_connection c address magic id ss ≡ (none, ss))
          ⊎ ((t : Session) × ((register_trustlet_connection c address magic id ss).0 ≡ some t)
              × Registered c address magic id ss
                  (register_trustlet_connection c address magic id ss).1
                  t)
        → (register_trustlet_connection c address magic id (s ∷ ss) ≡ (none, s ∷ ss))
          ⊎ ((t : Session) × ((register_trustlet_connection c address magic id (s ∷ ss)).0 ≡ some t)
              × Registered c address magic id
                  (s ∷ ss)
                  (register_trustlet_connection c address magic id (s ∷ ss)).1
                  t)
    next e (inl p) = inl (e ∙ ap (λ q. (q.0, s ∷ q.1)) p)
    next e (inr (t, p, r)) = inr (
      t,
      ap (λ q. q.0) e ∙ p,
      record {
        before = s ∷ r.before;
        session = r.session;
        after = r.after;
        was = ap (λ l. s ∷ l) r.was;
        is = ap (λ q. q.1) e ∙ ap (λ l. s ∷ l) r.is;
        given = r.given;
        same_address = r.same_address;
        same_magic = r.same_magic;
        same_id = r.same_id;
      },
    )
