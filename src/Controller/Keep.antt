-- ===== src/Controller/Keep.antt =====
-- What a handler's steps keep: a relation between the states before and after that every call, send
-- and change of a handler respects holds of the whole handler.
use dia.Prelude.{Bool, true, false, Option, none, some, if◌then◌else◌}
use dia.Subscriber
use dia.Subscriber.{Sent, queued, refused, blocks}
use dia.Controller.State.{
  Act, Steps, call_on, returned, go_on, send_on, sent, keep_controller, set_dia,
}

module _ {D : Type 0} where
  -- A relation that is reflexive and transitive and does not see a new DIA state or relay session.
  pub record IsKept (R : Act D → Act D → Type 0) : Type 0 where
    pub same : (a : Act D) → R a a
    pub after : (a b c : Act D) → R a b → R b c → R a c
    pub dia : (d : D) (a : Act D) → R a (set_dia d a)
    pub controller : (r : Subscriber.Session) (a : Act D) → R a (keep_controller r a)

module _ {D : Type 0} (R : Act D → Act D → Type 0) (k : IsKept R) where
  abbrev pub KeptBy : (Act D → Act D) → Type 0
  KeptBy f = (a : Act D) → R a (f a)

  -- A step and the rest of its handler.
  pub next :
      {A B : Type 0} (f : A → Steps D B) (o : Option A) {a b : Act D}
      → R a b
      → ((x : A) → R b (f x b).1)
      → R a (go_on f o b).1
  unfolding go_on
  next f none p q = p
  next f (some x) {a = a} {b = b} p q = k.after a b (f x b).1 p (q x)

  returned-R :
      {A : Type 0} (failing : Act D → Act D) (o : Option A)
      → KeptBy failing
      → (a : Act D) → R a (returned failing o a).1
  unfolding returned
  returned-R failing none p a = p a
  returned-R failing (some x) p a = k.same a

  call_on-R :
      {A : Type 0} (f : D → Option A × D) (failing : Act D → Act D)
      → KeptBy failing
      → (a : Act D) (o : Option D) → R a (call_on f failing a o).1
  unfolding call_on
  call_on-R f failing p a none = k.same a
  call_on-R f failing p a (some d) =
      let b = set_dia (f d).1 a in
      k.after a b (returned failing (f d).0 b).1 (k.dia (f d).1 a) (returned-R failing (f d).0 p b)

  -- A call of the DIA state whose failing part is kept.
  pub called :
      {A : Type 0} (f : D → Option A × D) (failing : Act D → Act D) (a : Act D) (o : Option D)
      → KeptBy failing
      → R a (call_on f failing a o).1
  called f failing a o p = call_on-R f failing p a o

  sent-R :
      (failing : Act D → Act D) (r : Sent) → KeptBy failing → (a : Act D) → R a (sent failing r a).1
  unfolding sent
  sent-R failing (queued r) p a = k.controller r a
  sent-R failing (refused why) p a = p a
  sent-R failing (blocks r) p a = k.controller r a

  send_on-R :
      (f : Subscriber.Session → Sent) (failing : Act D → Act D)
      → KeptBy failing
      → (a : Act D) (o : Option Subscriber.Session) → R a (send_on f failing a o).1
  unfolding send_on
  send_on-R f failing p a none = k.same a
  send_on-R f failing p a (some r) = sent-R failing (f r) p a

  -- A send whose failing part is kept.
  pub sent_through :
      (f : Subscriber.Session → Sent) (failing : Act D → Act D) (a : Act D)
      (o : Option Subscriber.Session)
      → KeptBy failing
      → R a (send_on f failing a o).1
  sent_through f failing a o p = send_on-R f failing p a o

  -- A handler that stops early under a test.
  pub either_way : (b : Bool) {a x y : Act D} → R a x → R a y → R a (if b then x else y)
  either_way true p q = p
  either_way false p q = q
