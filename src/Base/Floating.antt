-- ===== src/Base/Floating.antt =====
-- include/utils/FloatingP.hpp: `FloatingP` is `double`. Nothing is assumed of its arithmetic: the
-- type and the operations that the program uses on it are an instance argument of the model.
use Prim.Native.String.{String}
use mathlib.Core.Bool.{Bool}
use quote_server.Base.Faults.{Result}

pub record Floating (F : Type 0) : Type 0 where
  -- `a - b`
  pub sub : F → F → F
  -- `a == b`
  pub same : F → F → Bool
  -- `std::stod(s)`
  pub stod : String → Result F

abbrev pub minus : {F : Type 0} ⦃f : Floating F⦄ → F → F → F
minus ⦃f⦄ = f.sub

abbrev pub stod : {F : Type 0} ⦃f : Floating F⦄ → String → Result F
stod ⦃f⦄ = f.stod
