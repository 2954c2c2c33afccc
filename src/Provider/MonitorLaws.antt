-- ===== src/Provider/MonitorLaws.antt =====
-- What the limits monitor remembers.
use claudeq.Prelude.{
  ℕ, ◌≡◌, refl, ap, sym, ◌∙◌, Bool, true, false, Option, none, some, Text, arith, text_eq_refl,
}
use claudeq.Prelude.Floats.{Floats}
use claudeq.Prelude.Strings.{Time}
use claudeq.Prelude.Assoc.{Assoc, insert, lookup-insert}
use claudeq.Provider.Model.{Instance, Limits}
use claudeq.Provider.Health.{fingerprint}
use claudeq.Provider.Monitor.{
  Answer, read_failed, Entry, remembered, from_memory, or_read, remember, read, get, or_no_limits,
}

module _ (fl : Floats) where
  remembered-put :
      (inst : Instance) (l : Limits fl) (entries : Assoc (Entry fl))
      → remembered fl inst
          (insert inst.id (record { fingerprint = fingerprint inst; limits = l }) entries)
        ≡ some l
  unfolding remembered
  remembered-put inst l entries = ground (
    arith,
    lookup-insert inst.id inst.id (record { fingerprint = fingerprint inst; limits = l }) entries,
    text_eq_refl inst.id,
    text_eq_refl (fingerprint inst),
  )

  from_memory-some :
      (age : ℕ) (now : Time) (fresh force : Bool) (o : Option (Limits fl)) (l : Limits fl)
      → from_memory fl age now fresh force o ≡ some l
      → o ≡ some l
  from_memory-some age now fresh force none l h = cc
  from_memory-some age now fresh force (some prev) l h = ground (arith, h)

  -- The answer of a request, and the memory after it.
  answered_of :
      (inst : Instance) (l : Limits fl) (o : Option (Limits fl)) (entries : Assoc (Entry fl))
      → ((k : Limits fl) → o ≡ some k → remembered fl inst entries ≡ some k)
      → remembered fl inst (or_read fl o (remember fl inst false l entries) entries).1
        ≡ some (or_read fl o (remember fl inst false l entries) entries).0
  unfolding remember
  answered_of inst l none entries h = remembered-put inst l entries
  answered_of inst l (some k) entries h = h k refl

  -- After a request whose caller did not go away, the monitor remembers the answer that it gave.
  remembered-get :
      (age : ℕ) (inst : Instance) (now : Time) (answer : Answer fl) (fresh force : Bool)
      (entries : Assoc (Entry fl))
      → remembered fl inst (get fl age inst now answer false fresh force entries).1
        ≡ some (get fl age inst now answer false fresh force entries).0
  unfolding get
  remembered-get age inst now answer fresh force entries =
      let prev = remembered fl inst entries in
      answered_of inst (read fl inst now (or_no_limits fl prev) answer)
        (from_memory fl age now fresh force prev) entries
        (λ k e. from_memory-some age now fresh force prev k e)

  -- What a read that fails leaves of the figures.
  read_fails :
      (inst : Instance) (now : Time) (prev : Limits fl) (e : Text)
      → inst.enabled ≡ true
      → (read fl inst now prev (read_failed e)).windows ≡ prev.windows
  unfolding read
  read_fails inst now prev e on = ground (arith, on)

  kept_windows :
      (inst : Instance) (l prev : Limits fl) (gone : Bool) (o : Option (Limits fl))
      (entries : Assoc (Entry fl))
      → ((k : Limits fl) → o ≡ some k → k.windows ≡ prev.windows)
      → l.windows ≡ prev.windows
      → (or_read fl o (remember fl inst gone l entries) entries).0.windows ≡ prev.windows
  unfolding remember
  kept_windows inst l prev gone none entries h e = ground (arith, e)
  kept_windows inst l prev gone (some k) entries h e = h k refl

  -- Where an enabled provider has remembered limits, a request whose read fails is answered with
  -- their windows, whether its caller goes away or not.
  pub get-windows :
      (age : ℕ) (inst : Instance) (now : Time) (e : Text) (gone fresh force : Bool)
      (entries : Assoc (Entry fl)) (prev : Limits fl)
      → inst.enabled ≡ true
      → remembered fl inst entries ≡ some prev
      → (get fl age inst now (read_failed e) gone fresh force entries).0.windows ≡ prev.windows
  unfolding get
  get-windows age inst now e gone fresh force entries prev on kept =
      let o = remembered fl inst entries in
      kept_windows inst (read fl inst now (or_no_limits fl o) (read_failed e)) prev gone
        (from_memory fl age now fresh force o) entries
        (λ k m. same_windows k (sym (from_memory-some age now fresh force o k m) ∙ kept))
        (read_fails inst now (or_no_limits fl o) e on
          ∙ ap (λ (p : Option (Limits fl)). (or_no_limits fl p).windows) kept)
    where
      same_windows : (k : Limits fl) → some k ≡ some prev → k.windows ≡ prev.windows
      same_windows k m = ap (λ (p : Option (Limits fl)). (or_no_limits fl p).windows) m
