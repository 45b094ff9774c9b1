-- ===== src/Template.antt =====
-- pkg/controller/template_resolver.go: the inheritance of templates, and their merge into the
-- configuration of a pod.
pub mod Keyed
pub mod Spec
pub mod Chain
pub mod Config
mod Tests
