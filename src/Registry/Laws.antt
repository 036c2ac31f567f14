-- ===== src/Registry/Laws.antt =====
-- What is in a registry.
use leafmask.Prelude.{Text, text_eq, some, ◌≡◌, if◌then◌else◌, at_key-put_key}
use leafmask.Registry.{Registry, TransformerFactory, register, get}

-- A registered factory is found under its name, in place of an earlier one; the others stay.
pub get-register :
    (self : Registry) (f : TransformerFactory) (name : Text)
    → get (register self f) name ≡ (if text_eq f.name name then some f else get self name)
unfolding get register
get-register self f name = at_key-put_key self.factories f.name f name
