-- ===== src/Web/Tests.antt =====
-- Two handlers of one name, for two methods.
use rigcontrol.Common.{ℕ, ◌+◌, Bytes, codes}
use rigcontrol.Uri.{Param}
use rigcontrol.Web.{Handler}

-- A handler that leaves a mark and a status.
abbrev marks : Bytes → ℕ → ℕ → Handler ℕ
marks name mark status = record { name = name; handler = λ uri w. (w + mark, status) }

abbrev get_setting : Handler ℕ
get_setting = marks (codes "setting") 1 0

abbrev post_setting : Handler ℕ
post_setting = marks (codes "setting") 10 1

abbrev name_param : Param
name_param = (codes "name", codes "ssid")
