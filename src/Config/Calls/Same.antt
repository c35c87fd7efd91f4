-- ===== src/Config/Calls/Same.antt =====
-- config/src/config_wrapper.cpp: what it means that a function answers as its reference.
use p7_kode.Base.{refl}
use p7_kode.Base.Text.{Bytes}
use p7_kode.Base.Double.{Double}
use p7_kode.Base.Json.{Json}
use p7_kode.Config.Values.{File}
use p7_kode.Config.Store.{State}
use p7_kode.Config.Calls.{Call, Answer, answered, call}
use p7_kode.Config.Calls.Reference.{reference}
use p7_kode.Config.Calls.Memory.{IsSettled}
use p7_kode.Config.Calls.Ready.{loaded_static, loaded_dynamic, Answers}

module _ (d : Double) (j : Json d) (files : Bytes → File d j) where
  -- The state keeps the values of the two files.
  abbrev pub Good : State d j → Type 0
  Good = IsSettled d j (loaded_static d j files) (loaded_dynamic d j files)

  -- A call of which the reference computes the same.
  abbrev pub Same : Call → Type 0
  Same c =
      Answers d j files (call d j files c)
        (reference d j (loaded_static d j files) (loaded_dynamic d j files) c)

  pub answered-Answers :
      {A : Type 0} (g : A → Answer d.Carrier) (f : State d j → A × State d j) (a : A)
      → Answers d j files f a
      → Answers d j files (λ s. answered g (f s)) (g a)
  answered-Answers g f a h s ready = let (s', e, settled) = h s ready in (s', rw e refl, settled)
