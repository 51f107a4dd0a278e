-- ===== src/Pages/Shell.antt =====
-- frontend/components/layout/AppShell.tsx, Header.tsx and UserMenu.tsx, with the parts of Sidebar.tsx
-- that depend on the state, and the button of frontend/app/login/page.tsx.
use go_analyze.Prelude.{
  String, Bool, true, false, not, Option, none, some, List, [], ◌∷◌, ◌++◌, map, if◌then◌else◌,
  coalesce, is_empty, truthy_or, take, join, split_text, first_text,
}
use go_analyze.Ui.{when_text, when, Item, paragraph, badge, link, button, loading_block}
use go_analyze.Pages.Sidebar.{is_active, NavItem, NavGroup}

-- `collapsed` and `mobileOpen`.
pub record Chrome : Type 0 where
  pub collapsed : Bool
  pub mobile_open : Bool

abbrev pub initial_chrome : Chrome
initial_chrome = record { collapsed = false; mobile_open = false }

-- The two buttons of the header, and the two ways to close the navigation: its own button and the
-- shade beside it.
pub data ChromeEvent : Type 0 where
  toggle_collapse open_mobile close_mobile : ChromeEvent

unfoldable pub chrome_step : ChromeEvent → Chrome → Chrome
chrome_step toggle_collapse c = record c { collapsed = not c.collapsed }
chrome_step open_mobile c = record c { mobile_open = true }
chrome_step close_mobile c = record c { mobile_open = false }

-- `cx`: the classes that are there, separated by spaces.
abbrev pub present : List (Option String) → List String
present [] = []
present (none ∷ cs) = present cs
present (some c ∷ cs) = let rest = present cs in if is_empty c then rest else c ∷ rest

unfoldable pub cx : List (Option String) → String
cx classes = join " " (present classes)

abbrev pub class_if : Bool → String → Option String
class_if b c = if b then some c else none

-- The label of the button that collapses the navigation.
abbrev pub collapse_label : Bool → String
collapse_label collapsed = if collapsed then "Expand sidebar" else "Collapse sidebar"

-- The classes of the shell and of the navigation, whether the shade is there, and the label
-- of that button.
pub record ChromeView : Type 0 where
  pub shell_class : String
  pub sidebar_class : String
  pub has_shade : Bool
  pub button_label : String

unfoldable pub chrome_view : Chrome → ChromeView
unfolding cx
chrome_view c = record {
  shell_class = cx (some "appShell" ∷ class_if c.collapsed "collapsed" ∷ []);
  sidebar_class = cx (some "sidebar" ∷ class_if c.mobile_open "mobileOpen" ∷ []);
  has_shade = c.mobile_open;
  button_label = collapse_label c.collapsed;
}

-- An entry of the navigation: its address, its text, and its class.
abbrev pub sidebar_link : Option String → NavItem → List Item
sidebar_link path item =
    link item.href item.label
    ∷ badge (cx (some "sidebarLink" ∷ class_if (is_active path item) "active" ∷ [])) ""
    ∷ []

abbrev pub sidebar_links : Option String → List NavItem → List Item
sidebar_links path [] = []
sidebar_links path (item ∷ items) = sidebar_link path item ++ sidebar_links path items

-- The list of the navigation, with the labels of its groups.
unfoldable pub sidebar_items : Option String → List NavGroup → List Item
sidebar_items path [] = []
sidebar_items path (g ∷ gs) =
    when_text g.group_label paragraph ++ (sidebar_links path g.items ++ sidebar_items path gs)

-- `DecodedUser`, in the fields that are used.
pub record DecodedUser : Type 0 where
  pub sub : String
  pub preferred_username : Option String
  pub email : Option String
  pub name : Option String
  pub roles : Option (List String)  -- `realm_access?.roles`

-- `user.name || user.preferred_username || user.email || "Signed-in user"`.
unfoldable pub display_name : DecodedUser → String
display_name u =
    truthy_or u.name (truthy_or u.preferred_username (truthy_or u.email "Signed-in user"))

-- `initials`: `p[0]` of an empty part is undefined, and `join` makes "" of it.
unfoldable pub initials : (String → String) → String → String
initials upper name = upper (join "" (take 2 (map first_text (split_text b' ' name))))

-- `roles` of `useAuth`: `user?.realm_access?.roles ?? []`.
abbrev pub roles_of : Option DecodedUser → List String
roles_of none = []
roles_of (some u) = coalesce u.roles []

abbrev pub role_badges : List String → List Item
role_badges [] = []
role_badges (r ∷ rs) = badge "badge-neutral" r ∷ role_badges rs

-- `UserMenu`, closed or open.
unfoldable pub user_menu : (String → String) → Option DecodedUser → Bool → List Item
unfolding display_name initials
user_menu upper none is_opened = []
user_menu upper (some u) is_opened =
    paragraph (initials upper (display_name u))
    ∷ paragraph (display_name u)
    ∷ when is_opened (
        paragraph (display_name u)
        ∷ (when_text u.email paragraph
            ++ (role_badges (take 4 (roles_of (some u))) ++ button "Sign out" false ∷ [])))

-- What happens to the menu: a click on its button, and a press of the mouse, outside of it or inside.
pub data MenuEvent : Type 0 where
  menu_clicked pressed_outside pressed_inside : MenuEvent

unfoldable pub menu_step : MenuEvent → Bool → Bool
menu_step menu_clicked is_opened = not is_opened
menu_step pressed_outside is_opened = false
menu_step pressed_inside is_opened = is_opened

-- The sign-in page, for `starting`.
unfoldable pub login_view : String → Bool → Bool → List Item
login_view app_name ready starting =
    if not ready
    then loading_block "Checking your session…" ∷ []
    else paragraph app_name
      ∷ button (if starting then "Redirecting to sign-in…" else "Sign in with Keycloak") starting
      ∷ []

-- A click on its button: `starting`, and where `login` is to lead back to; nothing while it is
-- disabled. The second text is the parameter `redirect` of the address.
unfoldable pub click_login : Option String → Bool → Bool × Option String
click_login redirect starting =
    if starting then (true, none) else (true, some (truthy_or redirect "/dashboard"))
