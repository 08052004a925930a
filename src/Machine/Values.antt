-- ===== src/Machine/Values.antt =====
-- The text of a value of a JSON file.
use xaac_thin_client_os.Base.{ℤ, pos, negsuc, suc, true, false, String, decimal, ◌<>◌}
use xaac_thin_client_os.Json.{Json, null, bool, num, text, arr, obj}
use xaac_thin_client_os.Machine.State.{Host}
use xaac_thin_client_os.Machine.Monad.{M, gets}

signed : ℤ → String
signed (pos n) = decimal n
signed (negsuc n) = "-" <> decimal (suc n)

-- `str(v)`
unfoldable pub str_of : Host → Json → String
unfolding signed
str_of h (text s) = s
str_of h (num n) = signed n
str_of h null = "None"
str_of h (bool true) = "True"
str_of h (bool false) = "False"
str_of h (arr xs) = h.repr (arr xs)
str_of h (obj fs) = h.repr (obj fs)

unfoldable pub str_value : Json → M String
unfolding str_of
str_value v = gets (λ w. str_of w.host v)
