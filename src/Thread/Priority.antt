-- ===== src/Thread/Priority.antt =====
-- src/Thread.cpp, setCurrentThreadPriority and setCurrentProcessPriority: what WIN32 is asked for.
-- On the other platforms both do nothing.
use ucxx.Base.{◌≡◌, refl}

-- Thread::Priority
pub data Priority : Type 0 where
  idle lowest low normal high highest realtime : Priority

-- The values of SetThreadPriority, by their names.
pub data ThreadPriority : Type 0 where
  priority_idle priority_lowest priority_below_normal priority_normal : ThreadPriority
  priority_above_normal priority_highest priority_time_critical : ThreadPriority

-- The values of SetPriorityClass, by their names.
pub data PriorityClass : Type 0 where
  idle_class below_normal_class normal_class above_normal_class : PriorityClass
  high_class realtime_class : PriorityClass

unfoldable thread_priority : Priority → ThreadPriority
thread_priority idle = priority_idle
thread_priority lowest = priority_lowest
thread_priority low = priority_below_normal
thread_priority normal = priority_normal
thread_priority high = priority_above_normal
thread_priority highest = priority_highest
thread_priority realtime = priority_time_critical

unfoldable priority_class : Priority → PriorityClass
priority_class idle = idle_class
priority_class lowest = below_normal_class
priority_class low = below_normal_class
priority_class normal = normal_class
priority_class high = above_normal_class
priority_class highest = high_class
priority_class realtime = realtime_class

abbrev requested : ThreadPriority → Priority
requested priority_idle = idle
requested priority_lowest = lowest
requested priority_below_normal = low
requested priority_normal = normal
requested priority_above_normal = high
requested priority_highest = highest
requested priority_time_critical = realtime

-- No two priorities of a thread ask for the same.
requested-thread_priority : (x : Priority) → requested (thread_priority x) ≡ x
unfolding thread_priority
requested-thread_priority idle = refl
requested-thread_priority lowest = refl
requested-thread_priority low = refl
requested-thread_priority normal = refl
requested-thread_priority high = refl
requested-thread_priority highest = refl
requested-thread_priority realtime = refl
