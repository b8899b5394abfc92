-- ===== src/Http/Action.antt =====
-- http/HTTPAction.hpp.
use Prim.Native.String.{String}
use text.Mathlib.Text.{◌==◌}
use text.Mathlib.TextEquality.{eq_iff}
use medici.Prelude.{◌≡◌, ◌↔◌, ◌∙◌, refl, ap, true, arith, Result, ok, err, if◌then◌else◌}

pub data HttpAction : Type 0 where
  get post put delete patch head options trace connect : HttpAction

-- `operator<<`.
unfoldable pub show_action : HttpAction → String
show_action get = "GET"
show_action post = "POST"
show_action put = "PUT"
show_action delete = "DELETE"
show_action patch = "PATCH"
show_action head = "HEAD"
show_action options = "OPTIONS"
show_action trace = "TRACE"
show_action connect = "CONNECT"

-- `to_HTTPAction`; the error is about the method that is not known.
unfoldable pub to_http_action : String → Result String HttpAction
to_http_action method =
    if method == "GET"
    then ok get
    else if method == "POST"
    then ok post
    else if method == "PUT"
    then ok put
    else if method == "DELETE"
    then ok delete
    else if method == "PATCH"
    then ok patch
    else if method == "HEAD"
    then ok head
    else if method == "OPTIONS"
    then ok options
    else if method == "TRACE"
    then ok trace
    else if method == "CONNECT"
    then ok connect
    else err method

read_show : (a : HttpAction) → to_http_action (show_action a) ≡ ok a
unfolding show_action to_http_action
read_show get = refl
read_show post = refl
read_show put = refl
read_show delete = refl
read_show patch = refl
read_show head = refl
read_show options = refl
read_show trace = refl
read_show connect = refl

-- The tests of `to_HTTPAction` hold only of the names themselves.
name_facts :
    (m : String)
    → (((m == "GET") ≡ true) ↔ (m ≡ "GET"))
      × (((m == "POST") ≡ true) ↔ (m ≡ "POST"))
      × (((m == "PUT") ≡ true) ↔ (m ≡ "PUT"))
      × (((m == "DELETE") ≡ true) ↔ (m ≡ "DELETE"))
      × (((m == "PATCH") ≡ true) ↔ (m ≡ "PATCH"))
      × (((m == "HEAD") ≡ true) ↔ (m ≡ "HEAD"))
      × (((m == "OPTIONS") ≡ true) ↔ (m ≡ "OPTIONS"))
      × (((m == "TRACE") ≡ true) ↔ (m ≡ "TRACE"))
      × (((m == "CONNECT") ≡ true) ↔ (m ≡ "CONNECT"))
name_facts m = (
  eq_iff m "GET",
  eq_iff m "POST",
  eq_iff m "PUT",
  eq_iff m "DELETE",
  eq_iff m "PATCH",
  eq_iff m "HEAD",
  eq_iff m "OPTIONS",
  eq_iff m "TRACE",
  eq_iff m "CONNECT",
)

only_names :
    (method : String) (a : HttpAction) → to_http_action method ≡ ok a → method ≡ show_action a
unfolding to_http_action show_action
only_names method get e = ground (arith, e, name_facts method)
only_names method post e = ground (arith, e, name_facts method)
only_names method put e = ground (arith, e, name_facts method)
only_names method delete e = ground (arith, e, name_facts method)
only_names method patch e = ground (arith, e, name_facts method)
only_names method head e = ground (arith, e, name_facts method)
only_names method options e = ground (arith, e, name_facts method)
only_names method trace e = ground (arith, e, name_facts method)
only_names method connect e = ground (arith, e, name_facts method)

-- Reading and printing an action are inverse to each other: a text is read as an action exactly when it
-- is that action's name.
pub to_http_action-show :
    (method : String) (a : HttpAction) → (to_http_action method ≡ ok a) ↔ (method ≡ show_action a)
to_http_action-show method a = (only_names method a, λ e. ap to_http_action e ∙ read_show a)
