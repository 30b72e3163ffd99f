-- ===== src/Program/Whole.antt =====
-- The program from its start: `main` of src/main.rs, and every state that what it starts reaches.
