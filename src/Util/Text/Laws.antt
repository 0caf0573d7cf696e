-- ===== src/Util/Text/Laws.antt =====
-- The characters of a text that is put together.
use cluster_deployer.Common.{String, text_append, ◌≡◌, refl, ◌++◌}
use cluster_deployer.Util.Text.{codes}
use Prim.Native.String.append

pub codes-append : (s t : String) → codes (text_append s t) ≡ codes s ++ codes t
codes-append String.[] t = rw append.nil refl
codes-append (String.◌∷◌ c s) t = rw (append.cons, codes-append s t) refl
